-- ===== src/Publication.antt =====
-- The publication of an approved ledger: publication.py.
pub mod Tables
pub mod Snapshot
pub mod Results
pub mod Prepare
pub mod Pipeline
pub mod Publish
pub mod LifeCycle
pub mod Checks
pub mod Release
pub mod History
pub mod SampleScript
mod Samples
