-- ===== src/Polling.antt =====
-- The polling of LSF (lsfmgr/monitor.py): what an answer says of the jobs of a job set, and what is
-- written of it.
pub mod Merge
pub mod Cycle
pub mod Guarded
