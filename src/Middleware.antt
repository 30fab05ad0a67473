-- ===== src/Middleware.antt =====
-- internal/middleware, and the health handler of internal/server.
pub mod Token
pub mod Limiter
pub mod Http
pub mod Chain
pub mod Admission
pub mod Health
