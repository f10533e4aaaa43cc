-- ===== src/Api.antt =====
-- internal/api: the HTTP handlers of server.go, and the writer of middleware.go that they write to.
pub mod Writer
pub mod Server
pub mod Routes
