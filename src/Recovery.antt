-- ===== src/Recovery.antt =====
-- src/ledger/unknown-state-recovery.ts: bets of unknown outcome and how they are settled.
mod Types
mod Sweep
mod Evidence
mod Settled
mod Manual
mod Tests
