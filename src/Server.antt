-- ===== src/Server.antt =====
-- The server (src/server).
pub mod Context
pub mod Timer
pub mod TimerManager
pub mod Session
pub mod Strands
