-- ===== src/Learning.antt =====
-- The learning plans: which curriculum nodes stand before a weak one.
pub mod Graph
pub mod Closure
pub mod Cycles
pub mod Path
mod Samples
