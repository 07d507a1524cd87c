-- ===== src/Server.antt =====
-- internal/server/server.go: how a request to `/v1/workspaces/<workspace>/op/<id>` is decided.
pub mod Auth
pub mod Access
pub mod Environment
pub mod Execute
pub mod PathTemplate
pub mod Suggest
