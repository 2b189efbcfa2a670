-- ===== src/Sqlprobe.antt =====
-- internal/sqlprobe: join predicates mined from SQL that the database stores.
pub mod Scan
pub mod Token
pub mod Extract
pub mod Walk
pub mod Resolve
