-- ===== src/Reconcile.antt =====
-- src/ledger/balance-reconciliation.ts, which compares the balance that the bets add up to with the
-- balance that is seen.
mod Pages
mod Paging
mod Run
mod Streak
mod Sum
mod Tests
