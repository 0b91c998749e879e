-- ===== src/Cluster.antt =====
-- mocklsf, the LSF that the tests of the library run against: its jobs, its database and its
-- scheduler.
pub mod Jobs
pub mod Database
pub mod Scheduler
pub mod Capacity
pub mod Settled
