-- ===== src/Virtual.antt =====
-- src/core/dry-run/virtual-ledger.ts: simulated trades and their balance.
mod Ledger
mod Books
mod Tests
