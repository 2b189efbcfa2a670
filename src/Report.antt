-- ===== src/Report.antt =====
-- internal/report: the generated SQL.
pub mod Names
pub mod Lines
pub mod Suggestions
pub mod Relations
pub mod Pending
pub mod Commented
