-- ===== src/Secrets.antt =====
-- internal/secrets/resolver.go, and `parseSecretRef` of internal/server/server.go.
pub mod Refs
pub mod Taint
pub mod Redaction
pub mod Registered
pub mod Resolver
