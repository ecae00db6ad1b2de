-- ===== src/Bets.antt =====
-- src/persistence/repositories/bet-repo.ts: the repository of bets.
pub mod Types
pub mod Memory
pub mod Stats
mod Numbering
mod Lookup
mod Calls
pub mod Store
pub mod MemoryStore
mod Tests
mod Postgres
mod Transactions
mod PostgresTests
