-- ===== src/Submitting.antt =====
-- lsfmgr/submitter.py: one cycle of submissions of a job set, from its launch to its end.
pub mod Cycle
pub mod Counting
pub mod Records
pub mod Tasks
pub mod Steps
pub mod Launch
pub mod Sound
pub mod Effects
pub mod Kept
pub mod Retries
pub mod Performed
pub mod Launched
pub mod Opened
pub mod Outcome
pub mod Stays
pub mod Ends
pub mod Costs
pub mod Bounded
pub mod Refusals
