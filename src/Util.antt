-- ===== src/Util.antt =====
-- lsfmgr/util.py: the ledger of the activities of each job set, the throttle of progress signals and
-- the sampler of log lines. An object is told from another by its identity, a number.
pub mod Ledger
pub mod Emission
pub mod Sampling
