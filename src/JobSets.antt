-- ===== src/JobSets.antt =====
-- The job sets (lsfmgr/jobset_core.py): what they hold, and how it is edited.
pub mod Choices
pub mod Manager
pub mod Counting
pub mod Plans
pub mod Edits
pub mod Rewrites
pub mod Deletions
pub mod Removals
pub mod Losses
