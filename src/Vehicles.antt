-- ===== src/Vehicles.antt =====
-- Delivery_app_BK/services/domain/vehicle: which vehicle a route gets, and the limits of a vehicle.
pub mod Selector
pub mod Limits
mod Tests
