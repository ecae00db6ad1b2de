-- ===== src/Utils.antt =====
-- src/utils: retries, the circuit breaker and the locks.
mod Retry
mod Attempts
mod Breaker
mod Admission
mod Locks
mod Fairness
mod MutexRefinement
mod Tests
