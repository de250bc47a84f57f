-- ===== src/Lib.antt =====
-- The logistics core of NextMark: the states of orders, route groups and plans, the move of orders
-- into plans, the stops of a route and their times, the outbox of events, the choice of vehicles and
-- message schedules; and who signs in where: the trusted devices of a team and the workspaces of a
-- user.
--
-- A request changes rows inside one database transaction. The model is functional: a table is a
-- list of records with the columns that the code reads or writes, a handler is a function from the
-- rows to the rows, and a handler that may raise returns `Result`. Times are microseconds from the
-- epoch; Python's dictionaries and sets are lists without repetition. Ids, counts and durations are
-- natural numbers. What the code takes from elsewhere is an argument: the clock, the table of state
-- names, the answers of the job queue, which rows another transaction has locked, the order in which
-- the database puts the values of a column that may be NULL, the keyed hash of a secret, the texts
-- and keys that are drawn at random, `str.strip` and `str.lower`.
--
-- Parts, with the code below Delivery_app_BK/ that each models:
-- Transitions: services/domain/state_transitions and the cascade `_recompute_and_auto_complete_plans`
--   of services/commands/order/order_states/update_orders_state.py. Moves is the matrix for an order
--   that is moved into a plan, Counts and GroupState the counters and state of a route group,
--   PlanState the state of a plan, Cascade their composition over a `Db`.
-- Orders: StateUpdate is the command `apply_orders_state_transition` of the same file, which calls
--   the cascade, and Resolve finds the orders that a request names; DeliveryWindows is
--   services/domain/order/delivery_windows.py. PlanChange is
--   services/commands/order/update_order_route_plan.py: Destination the route group that an order
--   gets, Heritage the states that plan and orders hand on, which runs the engines of Transitions.
-- Directions: directions/services. Windows is time_window_policy.py, Clamp is schedule_clamp.py,
--   which asks Windows for the next window and writes the schedule of Routes/Schedule.
-- Routes: the rows of a route and its stops (Stop), their expected schedule and service time
--   (Schedule, ServiceTime), the numbering and selection of route_lifecycle.py (Ordering), the
--   stops of orders that leave (Removal, of removal.py), and the moves of
--   update_route_stop_position.py (Reposition) and update_route_stop_group_position.py (GroupMove).
-- Auth: services/domain/auth and services/commands/auth. TrustedDevice authenticates a device,
--   Devices and Assignments are the commands on devices and on their users, Trace a sequence of
--   such commands, each in its transaction; Roster is the set of pairs that the rows stand for.
--   Tokens and Sessions are the sign-in of the users of a device and the refresh of its tokens.
-- Workspaces: services/domain/user/app_workspace.py, and Switch the command
--   services/commands/user/switch_user_workspace.py.
-- Events: services/infra/events/dispatcher.py and requeue.py (Dispatch).
-- Vehicles: services/domain/vehicle (Selector, Limits).
-- Messaging: services/domain/messaging/schedule_policy.py (SchedulePolicy).
-- Moment, Result and Team hold datetimes, raised errors and team scopes; Prelude the shared
-- operators, lists and the stable sort.
--
-- Fuel: the `while True` loop of `_resolve_group_additional_shift` runs on `fuel_for`, one round
-- more than the group's orders have windows. Each round but the last moves an arrival past the start
-- of a window, so the loop has ended by then. All other loops are recursions on lists.
--
-- Not modelled: parsing of requests and of datetimes, time zones, serialisers, queries for display,
-- routing and optimisation providers, sockets, mail and SMS, analytics and the assistant.
pub mod Prelude
pub mod Moment
pub mod Result
pub mod Team
pub mod Transitions
pub mod Orders
pub mod Routes
pub mod Directions
pub mod Auth
pub mod Workspaces
pub mod Events
pub mod Vehicles
pub mod Messaging
