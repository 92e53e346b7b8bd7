-- ===== src/Client.antt =====
-- The client: src/client.
pub mod Pool
pub mod Target
pub mod Request
