-- ===== src/Routes/Ordering.antt =====
-- Delivery_app_BK/services/domain/route_operations/local_delivery/route_lifecycle.py: the selected
-- route of a group and the numbering of a route's stops.
pub mod Next
pub mod Numbered
pub mod Selected
use mathlib.Core.Option
use next_mark_backend_v.Prelude.{
  ℕ, zero, suc, ◌+◌, Bool, true, false, ◌&&◌, ◌||◌, not, Option, none, some, List, [], ◌∷◌, ◌++◌,
  map, min, max, ◌==◌, ltb, leb, if◌then◌else◌,
}
use next_mark_backend_v.Prelude.Sorting.{sort}
use next_mark_backend_v.Transitions.Ids.{id_is}
use next_mark_backend_v.Routes.Stop.{RouteStop, Route, or_zero}

-- `10**9` stands in for a missing order.
abbrev pub sort_order : Option ℕ → ℕ
sort_order none = 1_000_000_000
sort_order (some n) = n

-- The sort key `(stop_order, id, client_id)`: ids are the table's keys, so that the third part is
-- never compared.
unfoldable pub stop_le : RouteStop → RouteStop → Bool
stop_le a b =
    ltb (sort_order a.stop_order) (sort_order b.stop_order)
    || (sort_order a.stop_order == sort_order b.stop_order && leb a.id b.id)

-- `first_changed_position`, with one more candidate.
abbrev pub first_changed : Option ℕ → ℕ → ℕ
first_changed none candidate = candidate
first_changed (some first) candidate = min first candidate

abbrev pub candidate_position : Option ℕ → ℕ → ℕ
candidate_position none index = index
candidate_position (some previous_order) index = previous_order

pub record Numbering : Type 0 where
  pub stops : List RouteStop
  pub changed_stops : List RouteStop
  pub first_changed_position : Option ℕ

abbrev pub numbered : ℕ → RouteStop → RouteStop
numbered index stop = record stop { stop_order = some index }

-- The loop over the ordered stops.
unfoldable pub number_from : ℕ → Option ℕ → List RouteStop → Numbering
number_from index first [] = record {
  stops = [];
  changed_stops = [];
  first_changed_position = first;
}
number_from index first (stop ∷ rest) =
    let kept = number_from (suc index) first rest in
    let changed =
      number_from (suc index)
        (some (first_changed first (candidate_position stop.stop_order index))) rest in
    if id_is stop.stop_order index then record kept { stops = stop ∷ kept.stops } else record {
      stops = numbered index stop ∷ changed.stops;
      changed_stops = numbered index stop ∷ changed.changed_stops;
      first_changed_position = changed.first_changed_position;
    }

-- `route_solution.stops`, which its relationship keeps in the order of `stop_order`, afterwards.
unfoldable pub normalize_route_solution_stop_ordering : List RouteStop → Numbering
unfolding number_from stop_le sort
normalize_route_solution_stop_ordering stops = number_from 1 none (sort stop_le stops)

abbrev pub first_row : List RouteStop → Option RouteStop
first_row [] = none
first_row (s ∷ stops) = some s

abbrev pub current_max : Option RouteStop → ℕ
current_max none = 0
current_max (some last) = or_zero last.stop_order

-- `ORDER BY stop_order DESC, id DESC`, where `descends a b` says that the database puts a value `a`
-- of the column before or with `b` in descending order.
unfoldable pub last_first : (Option ℕ → Option ℕ → Bool) → RouteStop → RouteStop → Bool
last_first descends a b =
    descends a.stop_order b.stop_order
    && (not (descends b.stop_order a.stop_order) || leb b.id a.id)

-- `.first()` of the ordered rows.
unfoldable pub last_stop : (Option ℕ → Option ℕ → Bool) → List RouteStop → Option RouteStop
unfolding last_first sort
last_stop descends stops = first_row (sort (last_first descends) stops)

-- `last_order[0] if last_order and last_order[0] is not None else 0`, and one more; `stops` are the
-- rows of the route.
unfoldable pub get_next_route_stop_order : (Option ℕ → Option ℕ → Bool) → List RouteStop → ℕ
unfolding last_stop
get_next_route_stop_order descends stops = current_max (last_stop descends stops) + 1

-- `next(route for route in routes if test(route))`.
unfoldable pub find_route : (Route → Bool) → List Route → Option Route
find_route test [] = none
find_route test (r ∷ routes) = if test r then some r else find_route test routes

abbrev pub or_route : Option Route → Option Route → Option Route
or_route none d = d
or_route (some r) d = some r

unfoldable pub preferred_route : Option ℕ → List Route → Option Route
unfolding find_route
preferred_route none routes = none
preferred_route (some i) routes = find_route (λ r. r.id == i) routes

abbrev pub route_or : Option Route → Route → Route
route_or none d = d
route_or (some r) d = r

-- The route that is to be selected: the preferred one, or the first that is selected, or the first.
unfoldable pub choose_route : Option ℕ → Route → List Route → Route
unfolding preferred_route find_route
choose_route preferred first routes =
    let all = first ∷ routes in
    route_or (or_route (preferred_route preferred all) (find_route (λ r. r.is_selected) all)) first

-- `route_solution.id == selected_route.id`.
abbrev pub select_only : Route → Route → Route
select_only selected_route r = record r { is_selected = r.id == selected_route.id }

-- The group's routes in the order of their ids, afterwards. The source returns those of them that
-- it has written.
unfoldable pub ensure_single_selected_route_solution : Option ℕ → List Route → List Route
unfolding choose_route
ensure_single_selected_route_solution preferred [] = []
ensure_single_selected_route_solution preferred (first ∷ routes) =
    let selected_route = choose_route preferred first routes in
    map (select_only selected_route) (first ∷ routes)

-- The position from which `refresh_local_delivery_route_execution_instance` recomputes.
unfoldable pub effective_start_position : Bool → ℕ → Option ℕ → ℕ
effective_start_position full recompute_from_position none =
    if full then 1 else max 1 recompute_from_position
effective_start_position full recompute_from_position (some normalized_start_position) =
    if full then 1 else min (max 1 recompute_from_position) (max 1 normalized_start_position)
