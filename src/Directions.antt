-- ===== src/Directions.antt =====
-- Delivery_app_BK/directions: how arrival times meet the time windows of the orders.
pub mod Windows
pub mod Clamp
mod Tests
