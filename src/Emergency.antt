-- ===== src/Emergency.antt =====
-- src/core/emergency-stop.ts: the one-way halt of all live betting.
mod Stop
mod Cancelled
mod Gate
mod Complete
mod Tests
