-- ===== src/WorkerPool.antt =====
-- The package worker_pool: the configuration that a pool runs under, its counters, and the pool as
-- a transition system of submitters, workers, the run goroutine and the callers of Start and Stop.
pub mod New
pub mod Counters
pub mod State
pub mod Step
pub mod Invariant
pub mod Safety
pub mod Refinement
pub mod Bag
pub mod Faults
pub mod Liveness
mod Tests
