-- ===== src/Request.antt =====
-- request.go: how a kite takes an incoming request.
pub mod Audience
pub mod Authenticate
pub mod Run
pub mod Verify
