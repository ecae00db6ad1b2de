-- ===== src/Ledger.antt =====
-- The daily entry ledgers, src/ledger/.
pub mod Types
pub mod Daily
pub mod InMemory
pub mod Counts
pub mod Limit
pub mod Buckets
pub mod Leak
mod Tests
