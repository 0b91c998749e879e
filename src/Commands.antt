-- ===== src/Commands.antt =====
-- The commands of LSF (lsfmgr/command.py).
pub mod Chunks
pub mod Queries
pub mod Answers
pub mod Bkill
pub mod Resolved
pub mod Lines
pub mod Runs
