-- ===== src/EventLog.antt =====
-- src/core/event-bus/persistent-log.ts, the bounded log of the events.
mod Log
mod Last
mod Tests
