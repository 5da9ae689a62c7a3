-- ===== src/Benchmark.antt =====
-- Gold benchmarks and the release gate: benchmark.py.
pub mod Tables
pub mod Compare
pub mod Metrics
pub mod Candidates
pub mod Registry
pub mod Datasets
pub mod Evidence
pub mod Cases
pub mod Regression
pub mod Gate
pub mod Locked
mod Samples
