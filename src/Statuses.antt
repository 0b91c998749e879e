-- ===== src/Statuses.antt =====
-- lsfmgr/internal_status.py: the statuses that a callback of the application gives, kept in a ledger
-- of their own.
pub mod Source
pub mod Ledger
pub mod Fetching
pub mod Order
pub mod Fresh
pub mod Steps
pub mod Books
pub mod Bounds
pub mod Elapsed
pub mod Arrivals
