-- ===== src/WorkerPool/Invariant.antt =====
-- What holds of the pool of worker_pool/worker_pool.go between any two steps.
pub mod Defs
pub mod Frame
pub mod Moves
pub mod Submits
pub mod Counts
pub mod Life
pub mod Jobs
pub mod Work
