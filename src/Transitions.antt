-- ===== src/Transitions.antt =====
-- Delivery_app_BK/services/domain/state_transitions: how the states of orders, route groups and
-- plans depend on one another.
pub mod Ids
pub mod OrderStateId
pub mod PlanStateId
pub mod Moves
pub mod Model
pub mod Counts
pub mod GroupState
pub mod PlanState
pub mod Cascade
mod Tests
