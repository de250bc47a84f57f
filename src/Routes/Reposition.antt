-- ===== src/Routes/Reposition.antt =====
-- `update_route_stop_position` of Delivery_app_BK/services/commands/route_plan/local_delivery/
-- route_solution/stops/update_route_stop_position.py: moving one stop of a route.
pub mod Positions
use mathlib.Core.Option
use next_mark_backend_v.Prelude.{
  ℕ, ◌+◌, ◌-◌, ◌*◌, ◌/◌, ◌%◌, Bool, true, false, ◌&&◌, ◌||◌, Option, none, some, List, [], ◌∷◌, map,
  max, min, ◌==◌, ltb, leb, if◌then◌else◌,
}
use next_mark_backend_v.Moment.{Moment, ensure_utc, second}
use next_mark_backend_v.Result.{Result, ok, err, validation_failed, ◌>>=◌, ◌>>◌, guard}
use next_mark_backend_v.Transitions.Ids.{same_id, id_is}
use next_mark_backend_v.Routes.Stop.{
  RouteStop, Route, or_zero, position_of, estimated, Optimization, optimize, partial_optimize,
  not_optimize,
}

-- The stops between the two positions move up by one.
unfoldable pub shift_up : ℕ → ℕ → RouteStop → RouteStop
shift_up position current_position stop =
    if leb position (position_of stop) && ltb (position_of stop) current_position
    then record stop { stop_order = some (position_of stop + 1); eta_status = estimated }
    else stop

unfoldable pub shift_down : ℕ → ℕ → RouteStop → RouteStop
shift_down position current_position stop =
    if ltb current_position (position_of stop) && leb (position_of stop) position
    then record stop { stop_order = some (position_of stop - 1); eta_status = estimated }
    else stop

-- The loops skip every stop with the order of the moved one.
unfoldable pub shift_stop : ℕ → ℕ → RouteStop → RouteStop → RouteStop
unfolding shift_up shift_down
shift_stop position current_position route_stop stop =
    if same_id stop.order_id route_stop.order_id
    then stop
    else if ltb position current_position
    then shift_up position current_position stop
    else shift_down position current_position stop

unfoldable pub place_stop : ℕ → RouteStop → RouteStop → RouteStop
place_stop position route_stop stop =
    if stop.id == route_stop.id
    then record stop { stop_order = some position; eta_status = estimated }
    else stop

unfoldable pub reorder_stops : ℕ → ℕ → RouteStop → List RouteStop → List RouteStop
unfolding shift_stop place_stop
reorder_stops position current_position route_stop stops =
    map (λ s. place_stop position route_stop (shift_stop position current_position route_stop s))
      stops

unfoldable pub max_position : List RouteStop → ℕ
max_position [] = 0
max_position (s ∷ stops) = max (position_of s) (max_position stops)

abbrev pub after_reorder : Optimization → Optimization
after_reorder not_optimize = not_optimize
after_reorder optimize = partial_optimize
after_reorder partial_optimize = partial_optimize

-- The route after the checks and the moves, and the position from which its times are to be
-- computed again; `none` if the stop is there already.
unfoldable pub move_to : ℕ → RouteStop → Route → ℕ → Option (Route × ℕ)
unfolding reorder_stops
move_to position route_stop route current_position =
    if position == current_position
    then none
    else some (
      record route {
        stops = reorder_stops position current_position route_stop route.stops;
        is_optimized = after_reorder route.is_optimized;
      },
      min current_position position,
    )

unfoldable pub move_from : ℕ → RouteStop → Route → Option ℕ → Result (Option (Route × ℕ))
unfolding move_to max_position
move_from position route_stop route none = err validation_failed
move_from position route_stop route (some current_position) = do
  guard (leb position (max_position route.stops)) validation_failed
  ok (move_to position route_stop route current_position)

unfoldable pub move_in : ℕ → RouteStop → Route → List RouteStop → Result (Option (Route × ℕ))
unfolding move_from
move_in position route_stop route [] = err validation_failed
move_in position route_stop route (s ∷ stops) =
    move_from position route_stop route route_stop.stop_order

-- The guard on the position, the checks on the stops, and the move. `route` is the route, or its
-- clone, whose checks on dates and coordinates have passed.
unfoldable pub update_stop_order : ℕ → RouteStop → Route → Result (Option (Route × ℕ))
unfolding move_in
update_stop_order position route_stop route = do
  guard (leb 1 position) validation_failed
  move_in position route_stop route route.stops

abbrev pub microseconds_of_a_day : ℕ
microseconds_of_a_day = 86_400 * second

-- A plan of a single day that ends at its own midnight is read as ending with that day. UTC
-- instants: a day is a multiple of `microseconds_of_a_day`.
unfoldable pub normalize_legacy_single_day_end_date : Bool → Option ℕ → ℕ → ℕ
normalize_legacy_single_day_end_date is_single none end_date = end_date
normalize_legacy_single_day_end_date is_single (some start_date) end_date =
    if is_single
      && end_date / microseconds_of_a_day == start_date / microseconds_of_a_day
      && end_date % microseconds_of_a_day == 0
    then end_date + (microseconds_of_a_day - 1)
    else end_date

abbrev pub or_instant : Option ℕ → ℕ → ℕ
or_instant none d = d
or_instant (some t) d = t

-- `route_plan` exists; `is_single` is its `date_strategy == "single"`.
unfoldable pub is_route_solution_end_date_valid :
    ℕ → Bool → Option Moment → Option Moment → Result (Unit {0})
unfolding ensure_utc normalize_legacy_single_day_end_date
is_route_solution_end_date_valid now is_single plan_start plan_end =
    let start_date = or_instant (ensure_utc plan_start) now in
    let end_date =
      normalize_legacy_single_day_end_date is_single (ensure_utc plan_start)
        (or_instant (ensure_utc plan_end) start_date) in
    guard (leb now end_date) validation_failed
