-- ===== src/Tests.antt =====
-- Runs of the models at concrete inputs, and the theorems at these inputs.
pub mod Fixtures
pub mod Policies
pub mod Servers
pub mod SecretsAndJobs
pub mod Queries
pub mod Responses
pub mod Worklogs
pub mod Tokens
