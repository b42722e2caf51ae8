-- ===== src/Stats.antt =====
-- src/stats.
pub mod Replay
