-- ===== src/Infer.antt =====
-- internal/infer: hypotheses about undeclared relationships, and their scores.
pub mod Types
pub mod Score
pub mod Similarity
pub mod Finalize
pub mod Signals
pub mod Matches
pub mod Generate
pub mod Keys
pub mod Composite
pub mod Emission
pub mod Evidence
pub mod Run
