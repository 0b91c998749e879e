-- ===== src/Lifecycle.antt =====
-- lsfmgr/lifecycle.py: the gate that every submission passes, and the scope of a kill.
pub mod Gate
pub mod Scope
pub mod Refusal
pub mod Priority
