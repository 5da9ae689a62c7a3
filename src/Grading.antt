-- ===== src/Grading.antt =====
-- The review of an AI evaluation, its moderation, and grievances against published results.
pub mod Ledger
pub mod Work
pub mod Published
pub mod Proposal
mod ProposalSamples
pub mod Store
pub mod Access
pub mod Criteria
pub mod Review
pub mod Pools
pub mod Moderation
pub mod Finalize
pub mod Grievance
pub mod Samples
mod CaseSamples
