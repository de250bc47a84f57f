-- ===== src/Orders.antt =====
-- Orders: the commands that change their states, and the rules on their delivery windows.
pub mod Resolve
pub mod PlanChange
pub mod StateUpdate
pub mod DeliveryWindows
mod Tests
