-- ===== src/Settlement.antt =====
-- Settlement of orders, src/settlement/: the double-entry engine and the code around it.
pub mod Types
pub mod Engine
pub mod Balance
pub mod Orders
pub mod Journal
pub mod WellFormed
pub mod Books
pub mod Final
pub mod Kept
pub mod Lasting
mod Tests
pub mod Boot
