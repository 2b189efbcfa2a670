-- ===== src/Validate.antt =====
-- internal/validate: candidates checked against the data.
pub mod Options
pub mod Sample
pub mod Query
pub mod Verdict
pub mod Session
pub mod Group
pub mod Run
pub mod KeyProbe
