-- ===== src/Executor.antt =====
-- executor/: the part of a worker that runs jobs.
pub mod Action
pub mod Run
pub mod Loop
pub mod Cleanup
pub mod Failure
pub mod Verdict
pub mod Jobs
