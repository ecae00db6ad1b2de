-- ===== src/CashOut.antt =====
-- The cash-out controller, src/betting/cashout.ts.
pub mod Controller
pub mod Monitor
pub mod Resolution
pub mod Ticks
mod Tests
