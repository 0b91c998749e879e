-- ===== src/Killing.antt =====
-- The kill of jobs by their ids (lsfmgr/killer.py, with the grammar of the targets from
-- lsfmgr/command.py).
pub mod Targets
pub mod Confirm
pub mod Parts
pub mod Marking
pub mod Marked
pub mod MarkedOne
