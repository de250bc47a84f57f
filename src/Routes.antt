-- ===== src/Routes.antt =====
-- The stops of a local delivery route: their schedule, their order and how it is edited.
pub mod ServiceTime
pub mod Schedule
pub mod Stop
pub mod Ordering
pub mod Removal
pub mod Reposition
pub mod GroupMove
mod Tests
