-- ===== src/Witnesses.antt =====
-- Runs of the development at concrete inputs.
pub mod Fixed
pub mod Data
mod Model
mod Infer
mod Generate
mod Sqlprobe
mod Validate
mod Stats
mod Db
pub mod Runs
mod Extract
mod Reports
mod Discovery
