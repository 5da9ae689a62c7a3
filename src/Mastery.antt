-- ===== src/Mastery.antt =====
-- Mastery evidence (apps/api/app/services/mastery_derivation.py, b12_algorithm.py and
-- reassessment_mastery.py).
pub mod Codes
pub mod Derivation
pub mod Signals
pub mod Scores
pub mod Aggregation
mod Samples
