-- ===== src/Wsapi.antt =====
-- server/internal/wsapi: the part of the server that the players reach.
pub mod Nickname
pub mod RateLimit
pub mod Message
pub mod Room
pub mod Hub
pub mod Session
