-- ===== src/Proxy.antt =====
-- internal/proxy/server.go and connect.go.
pub mod Headers
pub mod Capture
pub mod Server
pub mod Connect
pub mod Programs
