-- ===== src/Routes/Stop.antt =====
-- The stops of a route solution (Delivery_app_BK/models/tables/route_operations/route_plan), and
-- `mark_route_stops_stale` of Delivery_app_BK/services/commands/route_plan/local_delivery/
-- route_solution/plan_sync/incremental_sync.py.
use next_mark_backend_v.Prelude.{
  ℕ, ◌-◌, String, Bool, false, ◌&&◌, Option, none, some, List, map, max, ◌==◌, leb, if◌then◌else◌,
}
use next_mark_backend_v.Routes.Schedule.{Schedule, clear_expected_stop_schedule}
use next_mark_backend_v.Directions.Windows.{WarningState}

pub data EtaStatus : Type 0 where
  valid estimated stale : EtaStatus

pub data Optimization : Type 0 where
  optimize partial_optimize not_optimize : Optimization

-- A row that is not flushed yet stands under the id that the flush gives it.
pub record RouteStop : Type 0 where
  pub id : ℕ
  pub order_id : Option ℕ
  pub stop_order : Option ℕ
  pub eta_status : EtaStatus
  pub in_range : Option Bool
  pub schedule : Schedule
  pub warnings : WarningState
  pub to_next_polyline : Option String

pub record Route : Type 0 where
  pub id : ℕ
  pub is_selected : Bool
  pub is_optimized : Optimization
  pub start_leg_polyline : Option String
  pub end_leg_polyline : Option String
  pub stops : List RouteStop

-- `stop.stop_order or 0`.
abbrev pub or_zero : Option ℕ → ℕ
or_zero none = 0
or_zero (some n) = n

abbrev pub position_of : RouteStop → ℕ
position_of s = or_zero s.stop_order

abbrev pub unavailable : WarningState
unavailable = record {
  has_constraint_violation = false;
  constraint_warnings = none;
  reason_was_skipped = some "Route timing unavailable";
}

unfoldable pub mark_stop_stale : ℕ → RouteStop → RouteStop
mark_stop_stale start_position stop =
    if leb start_position (position_of stop)
    then record stop {
      schedule = clear_expected_stop_schedule;
      eta_status = stale;
      in_range = some false;
      warnings = unavailable;
      to_next_polyline = none;
    }
    else if leb 1 (start_position - 1) && position_of stop == start_position - 1
    then record stop { to_next_polyline = none }
    else stop

-- The route with its suffix stale. The source also returns the stops that it wrote.
unfoldable pub mark_route_stops_stale : Route → ℕ → Route
unfolding mark_stop_stale
mark_route_stops_stale route start_position =
    let start = max 1 start_position in
    record route {
      end_leg_polyline = none;
      start_leg_polyline = if leb start 1 then none else route.start_leg_polyline;
      stops = map (mark_stop_stale start) route.stops;
    }
