-- ===== src/Proxy.antt =====
-- internal/proxy: the routes, the pipe, and the server's handlers.
pub mod Types
pub mod Router
pub mod Pipe
pub mod Dialer
pub mod Server
pub mod Tests
