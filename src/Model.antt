-- ===== src/Model.antt =====
-- internal/model: the vocabulary that every layer of the tool shares.
pub mod Refs
pub mod Usage
pub mod Table
pub mod Candidate
pub mod Coverage
pub mod Evidence
pub mod Finding
pub mod Naming
pub mod Result
