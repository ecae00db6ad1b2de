-- ===== src/Leases.antt =====
-- src/core/distributed-mutex.ts, locks on named resources that expire.
mod Types
mod Mutex
mod Lasting
mod Exclusion
mod Expiry
mod Tests
