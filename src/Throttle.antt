-- ===== src/Throttle.antt =====
-- src/telegram/throttle.ts: which notifications leave, and when.
mod Channel
mod Account
mod Deliveries
mod Lossless
mod Tests
