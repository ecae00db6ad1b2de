-- ===== src/Capital.antt =====
-- src/capital/in-memory-limits.ts: the limits of a loss.
mod Guard
mod Limits
mod Tests
