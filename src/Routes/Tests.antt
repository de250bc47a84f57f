-- ===== src/Routes/Tests.antt =====
-- The theorems on the order of stops at a concrete route.
use mathlib.Core.List.{Perm}
use next_mark_backend_v.Prelude.{
  ℕ, ◌≡◌, ◌<◌, ◌+◌, refl, inl, inr, Bool, true, false, Option, none, some, List, [], ◌∷◌, map, leb,
  arith,
}
use next_mark_backend_v.Prelude.Sorting.{sort, insert}
use next_mark_backend_v.Routes.Schedule.{clear_expected_stop_schedule}
use next_mark_backend_v.Routes.Stop.{
  RouteStop, Route, valid, partial_optimize, position_of, unavailable,
}
use next_mark_backend_v.Routes.Ordering.{
  stop_le, normalize_route_solution_stop_ordering, last_first, last_stop, get_next_route_stop_order,
  choose_route, ensure_single_selected_route_solution,
}
use next_mark_backend_v.Routes.Ordering.Numbered.{renumbered, normalize_again}
use next_mark_backend_v.Routes.Ordering.Next.{Descends, IsNext, get_next_route_stop_order-IsNext}
use next_mark_backend_v.Routes.Ordering.Selected.{
  HasId, selected_ids, ensure_single_selected, ensure_preferred_selected,
}
use next_mark_backend_v.Result.{ok, OnOk}
use next_mark_backend_v.Routes.Removal.{remove_orders_stops_for_local_delivery}
use next_mark_backend_v.Routes.Removal.Gone.{route_after, remove_orders_stops-again}
use next_mark_backend_v.Routes.ServiceTime.{
  Payload, object, digits, payload_or_null, normalize_service_time_payload,
}
use next_mark_backend_v.Routes.ServiceTime.Normal.{normalize-lenient}
use next_mark_backend_v.Routes.GroupMove.{
  stop_in, unique_ids, parse_route_stop_ids, remaining_ids, all_in, next_ordered_ids, order_group,
  move_group,
}
use next_mark_backend_v.Routes.GroupMove.Permuted.{occurrences, move_group-occurrences}
use next_mark_backend_v.Routes.Reposition.{reorder_stops}
use next_mark_backend_v.Routes.Reposition.Positions.{
  moved_to, positions, Distinct, Within, key_of, new_stop, reorder_stops-Positions,
  reorder_stops-order,
}

abbrev stop_at : ℕ → ℕ → Option ℕ → RouteStop
stop_at i o k = record {
  id = i;
  order_id = some o;
  stop_order = k;
  eta_status = valid;
  in_range = none;
  schedule = clear_expected_stop_schedule;
  warnings = unavailable;
  to_next_polyline = none;
}

abbrev first : RouteStop
first = stop_at 11 21 (some 1)

abbrev second : RouteStop
second = stop_at 12 22 (some 2)

abbrev third : RouteStop
third = stop_at 13 23 (some 3)

abbrev stops : List RouteStop
stops = first ∷ second ∷ third ∷ []

reorder_stops-Positions_example :
    let new = reorder_stops 1 (position_of third) third stops in
    Distinct (positions new)
    × Within 3 (positions new)
    × (positions new ≡ map (moved_to 1 (position_of third)) (positions stops))
reorder_stops-Positions_example =
    reorder_stops-Positions 3 1 third stops
      (
        inr (omega arith, refl, omega arith),
        (inr (omega arith, refl, omega arith), (inl (refl, refl, refl), tt)),
      )
      (omega arith) (omega arith) (omega arith) (omega arith) (omega arith) (omega arith)
      (omega arith)

reorder_stops-order_example :
    (map key_of (reorder_stops 1 (position_of third) third stops) ≡ map key_of stops)
    × (position_of (new_stop 1 third third) ≡ 1)
    × (position_of (new_stop 1 third first) < position_of (new_stop 1 third second))
reorder_stops-order_example =
    reorder_stops-order 1 third first second stops (omega arith)
      (inr (omega arith, refl, omega arith)) (inr (omega arith, refl, omega arith)) (omega arith)
      (omega arith) (omega arith)

abbrev gap : List RouteStop
gap = third ∷ stop_at 14 24 none ∷ first ∷ []

normalize_again_example :
    let once = normalize_route_solution_stop_ordering gap in
    (once.stops ≡ renumbered 1 (sort stop_le gap))
    × Perm (sort stop_le gap) gap
    × (normalize_route_solution_stop_ordering once.stops
        ≡ record { stops = once.stops; changed_stops = []; first_changed_position = none })
normalize_again_example = normalize_again gap

-- PostgreSQL's descending order.
abbrev descends : Option ℕ → Option ℕ → Bool
descends none b = true
descends (some a) none = false
descends (some a) (some b) = leb b a

descends-Descends : Descends descends
descends-Descends = record { numbers = λ a b. refl; null_first = λ b. refl; null_last = λ a. refl }

get_next_route_stop_order-IsNext_example : IsNext gap (get_next_route_stop_order descends gap)
get_next_route_stop_order-IsNext_example =
    get_next_route_stop_order-IsNext descends descends-Descends gap

-- The largest order of the other stops is 3.
next_order_of_gap : get_next_route_stop_order descends gap ≡ 1
unfolding get_next_route_stop_order last_stop last_first sort insert
next_order_of_gap = refl

next_order_of_two : get_next_route_stop_order descends (third ∷ first ∷ []) ≡ position_of third + 1
unfolding get_next_route_stop_order last_stop last_first sort insert
next_order_of_two = refl

abbrev route_of : ℕ → Bool → Route
route_of i selected = record {
  id = i;
  is_selected = selected;
  is_optimized = partial_optimize;
  start_leg_polyline = none;
  end_leg_polyline = none;
  stops = stops;
}

abbrev routes : List Route
routes = route_of 2 true ∷ route_of 3 true ∷ []

ensure_single_selected_example :
    let chosen = choose_route none (route_of 1 false) routes in
    HasId chosen.id (route_of 1 false ∷ routes)
    × (selected_ids (ensure_single_selected_route_solution none (route_of 1 false ∷ routes))
        ≡ chosen.id ∷ [])
ensure_single_selected_example =
    ensure_single_selected none (route_of 1 false) routes
      ((omega arith, (omega arith, tt)), ((omega arith, tt), (tt, tt)))

ensure_preferred_selected_example :
    selected_ids (ensure_single_selected_route_solution (some 3) routes) ≡ 3 ∷ []
ensure_preferred_selected_example =
    ensure_preferred_selected 3 routes ((omega arith, tt), (tt, tt)) (inr (inl refl))

move_group-occurrences_example :
    occurrences 12 (12 ∷ 11 ∷ 13 ∷ []) ≡ occurrences 12 (11 ∷ 12 ∷ 13 ∷ [])
unfolding occurrences move_group parse_route_stop_ids unique_ids order_group stop_in all_in
    remaining_ids next_ordered_ids
move_group-occurrences_example =
    move_group-occurrences 12 (11 ∷ 12 ∷ 13 ∷ []) (12 ∷ 12 ∷ []) 11 1 (12 ∷ 11 ∷ 13 ∷ [])
      (omega arith) refl

abbrev route : Route
route = record {
  id = 1;
  is_selected = true;
  is_optimized = partial_optimize;
  start_leg_polyline = none;
  end_leg_polyline = none;
  stops = stops;
}

remove_orders_stops-again_example :
    remove_orders_stops_for_local_delivery
      (22 ∷ 22 ∷ [])
      (map route_after (remove_orders_stops_for_local_delivery (22 ∷ 22 ∷ []) (route ∷ [])))
    ≡ []
remove_orders_stops-again_example = remove_orders_stops-again (22 ∷ 22 ∷ []) (route ∷ [])

abbrev payload : Payload
payload = object (some (digits 90)) none

normalize-lenient_example :
    OnOk
      (λ s.
        (normalize_service_time_payload false payload ≡ ok s)
        × (normalize_service_time_payload false (payload_or_null s) ≡ ok s))
      (normalize_service_time_payload true payload)
normalize-lenient_example = normalize-lenient payload
