-- ===== src/Middleware.antt =====
-- The middleware pipeline: include/foxhttp/middleware and src/middleware.
pub mod Code
pub mod Pipeline
pub mod Sync
pub mod Chain
pub mod RateLimit
pub mod Static
pub mod Auth
pub mod Compression
pub mod Headers
pub mod BodyParser
