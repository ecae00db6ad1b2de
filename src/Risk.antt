-- ===== src/Risk.antt =====
-- The gate before an entry: the risk engine and the financial circuit breaker it reads.
pub mod Circuit
pub mod Engine
pub mod Breaks
pub mod Approval
mod Tests
