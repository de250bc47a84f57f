-- ===== src/Events.antt =====
-- The outbox of domain events.
pub mod Dispatch
mod Tests
