-- ===== src/Queue.antt =====
-- The job queue, src/core/job-queue/priority-queue.ts.
pub mod Jobs
pub mod Selection
pub mod Bounds
pub mod Runs
mod Tests
