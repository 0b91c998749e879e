-- ===== src/Store.antt =====
-- lsfmgr/store: the store of job sets and job records, in memory.
pub mod Effects
pub mod Records
pub mod Fields
pub mod Memory
pub mod Update
pub mod Tally
pub mod Consistent
pub mod Removal
pub mod Calls
pub mod Invariant
pub mod Sound
pub mod Summaries
pub mod Writes
pub mod Defaults
pub mod Batch
pub mod Untouched
pub mod Atomic
pub mod Renewals
