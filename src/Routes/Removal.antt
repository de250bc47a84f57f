-- ===== src/Routes/Removal.antt =====
-- Delivery_app_BK/services/commands/route_plan/local_delivery/route_solution/stops/removal.py: the
-- stops of orders that leave a route group. The two writes of each new position, first a negative
-- one, leave the positions that the numbering gives.
pub mod Gone
use next_mark_backend_v.Prelude.{
  ℕ, Bool, true, false, not, ◌||◌, Option, none, some, List, [], ◌∷◌, ◌++◌, map, min, max, ◌==◌,
  length, if◌then◌else◌,
}
use next_mark_backend_v.Prelude.Rows.{any, select}
use next_mark_backend_v.Transitions.Cascade.{contains}
use next_mark_backend_v.Orders.Resolve.{dedupe_ids}
use next_mark_backend_v.Routes.Stop.{RouteStop, Route}
use next_mark_backend_v.Routes.Ordering.{Numbering, normalize_route_solution_stop_ordering}

-- `RouteSolutionStop.order_id.in_(order_ids)`
unfoldable pub is_named : List ℕ → RouteStop → Bool
unfolding contains
is_named order_ids stop = elim stop.order_id [ none ↦ false | some i ↦ contains i order_ids ]

unfoldable pub is_on_route : List ℕ → Route → Bool
unfolding is_named any
is_on_route order_ids route = any (is_named order_ids) route.stops

-- The smaller of two positions that may be missing.
abbrev pub min_position : Option ℕ → Option ℕ → Option ℕ
min_position none b = b
min_position (some a) none = some a
min_position (some a) (some b) = some (min a b)

unfoldable pub min_order : List RouteStop → Option ℕ
min_order [] = none
min_order (s ∷ stops) = min_position s.stop_order (min_order stops)

abbrev pub at_least_one : Option ℕ → Option ℕ
at_least_one none = none
at_least_one (some n) = some (max 1 n)

-- A route after the removal, its changed stops, and the position from which it is affected.
pub record Removal : Type 0 where
  pub route : Route
  pub updated_stops : List RouteStop
  pub affected_start : Option ℕ

unfoldable pub remove_from_route : List ℕ → Route → Removal
unfolding is_named select min_order normalize_route_solution_stop_ordering
remove_from_route order_ids route =
    let numbering =
      normalize_route_solution_stop_ordering
        (select (λ s. not (is_named order_ids s)) route.stops) in
    record {
      route = record route { stops = numbering.stops };
      updated_stops = numbering.changed_stops;
      affected_start = at_least_one (
          min_position (min_order numbering.changed_stops)
            (min_order (select (is_named order_ids) route.stops)));
    }

-- The routes are those of the group. The call returns before it numbers anything if no route has a
-- stop of the orders.
unfoldable pub remove_orders_stops_for_local_delivery : List ℕ → List Route → List Removal
unfolding dedupe_ids is_on_route any remove_from_route
remove_orders_stops_for_local_delivery order_ids routes =
    let ids = dedupe_ids [] order_ids in
    if any (is_on_route ids) routes then map (remove_from_route ids) routes else []
