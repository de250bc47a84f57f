-- ===== src/Messaging.antt =====
-- Rules on scheduled messages.
pub mod SchedulePolicy
mod Tests
