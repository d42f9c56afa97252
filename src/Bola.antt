-- ===== src/Bola.antt =====
-- The crate bola-api: the server of the game Bola.
pub mod Leaderboard
pub mod WsApi
pub mod Db
pub mod Main
pub mod Tournament
pub mod Pull
pub mod Network
pub mod Control
pub mod Command
pub mod State
