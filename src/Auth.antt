-- ===== src/Auth.antt =====
-- Delivery_app_BK: devices that a team trusts, and the sessions of the users assigned to one.
pub mod TrustedDevice
pub mod Common
pub mod Devices
pub mod Assignments
pub mod Trace
pub mod Roster
pub mod Rotation
pub mod Tokens
pub mod Sessions
mod Tests
