-- ===== src/Betting.antt =====
-- Placing bets, src/betting/: the idempotency store and the executor.
pub mod Types
pub mod Idempotency
pub mod Executor
pub mod Attempts
pub mod Once
pub mod Outcomes
pub mod Preserves
pub mod Expiry
pub mod Keys
pub mod Statuses
pub mod Resubmits
pub mod RedisStore
pub mod FailSafe
mod Tests
