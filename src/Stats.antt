-- ===== src/Stats.antt =====
-- internal/stats: the statistical prefilter.
pub mod Columns
pub mod Evaluate
