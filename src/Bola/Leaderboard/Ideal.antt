-- ===== src/Bola/Leaderboard/Ideal.antt =====
-- The ideal board, and leaderboards compared with it.
pub mod Defs
pub mod Steps
pub mod Find
pub mod Refine
