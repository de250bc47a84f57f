-- ===== src/Directions/Clamp.antt =====
-- Delivery_app_BK/directions/services/schedule_clamp.py: arrivals that fall between windows are
-- moved to the next window, with everything after them.
pub mod Shift
pub mod Settled
use mathlib.Core.Option
use next_mark_backend_v.Prelude.{
  ℕ, zero, suc, ◌+◌, ◌-◌, ◌/◌, String, Bool, true, false, ◌&&◌, Option, none, some, List, [], ◌∷◌,
  ◌++◌, map, ltb, length, if◌then◌else◌,
}
use next_mark_backend_v.Moment.{Moment, aware, ensure_utc, second}
use next_mark_backend_v.Routes.Schedule.{Schedule, apply_expected_stop_schedule}
use next_mark_backend_v.Directions.Windows.{
  RawWindow, Window, as_raw, Order, WarningState, build_effective_windows, normalize_windows,
  resolve_next_window_start, apply_stop_time_window_evaluation,
}

-- A stop with its order: `orders_by_id.get(stop.order_id) or stop.order`.
pub record Stop : Type 0 where
  pub id : ℕ
  pub order : Option Order
  pub schedule : Schedule
  pub warnings : WarningState

unfoldable pub arrival_of : Stop → Option ℕ
unfolding ensure_utc
arrival_of s = ensure_utc s.schedule.expected_arrival_time

-- The loop skips a stop with no order or with no arrival time.
unfoldable pub target : RawWindow → Stop → Option (ℕ × List Window)
unfolding arrival_of build_effective_windows
target plan s = elim s.order [
  | none ↦ none
  | some order ↦ elim (arrival_of s) [
    | none ↦ none
    | some t ↦ some (t, build_effective_windows order plan)
  ]
]

-- One round of the `for` loop over a group: the group's shift, and whether it grew.
unfoldable pub try_shift : ℕ → ℕ → ℕ × Bool → Option ℕ → ℕ × Bool
try_shift t accumulated_shift (group_shift, updated) none = (group_shift, updated)
try_shift t accumulated_shift (group_shift, updated) (some next_window_start) =
    let candidate_shift = next_window_start - t - accumulated_shift in
    if ltb group_shift candidate_shift then (candidate_shift, true) else (group_shift, updated)

unfoldable pub visit : ℕ → Option (ℕ × List Window) → ℕ × Bool → ℕ × Bool
unfolding try_shift resolve_next_window_start
visit accumulated_shift none s = s
visit accumulated_shift (some (t, windows)) (group_shift, updated) =
    try_shift t accumulated_shift (group_shift, updated)
      (resolve_next_window_start (some (aware (t + accumulated_shift + group_shift)))
        (map as_raw windows))

unfoldable pub pass : ℕ → List (Option (ℕ × List Window)) → ℕ × Bool → ℕ × Bool
unfolding visit
pass accumulated_shift [] s = s
pass accumulated_shift (x ∷ xs) s = pass accumulated_shift xs (visit accumulated_shift x s)

-- The `while True` loop.
unfoldable pub shift_loop : ℕ → ℕ → List (Option (ℕ × List Window)) → ℕ → ℕ
unfolding pass
shift_loop zero accumulated_shift xs group_shift = group_shift
shift_loop (suc fuel) accumulated_shift xs group_shift =
    let (next_shift, updated) = pass accumulated_shift xs (group_shift, false) in
    let rest = shift_loop fuel accumulated_shift xs next_shift in
    if updated then rest else next_shift

-- Each round but the last passes the start of a window, so one round more than there are windows
-- is enough.
unfoldable pub fuel_for : List (Option (ℕ × List Window)) → ℕ
unfolding normalize_windows
fuel_for [] = 1
fuel_for (none ∷ xs) = fuel_for xs
fuel_for (some (t, windows) ∷ xs) = length (normalize_windows (map as_raw windows)) + fuel_for xs

unfoldable pub resolve_group_additional_shift : List Stop → RawWindow → ℕ → ℕ
unfolding target shift_loop fuel_for
resolve_group_additional_shift group_stops plan accumulated_shift =
    let xs = map (target plan) group_stops in shift_loop (fuel_for xs) accumulated_shift xs 0

abbrev pub or_arrival : Option ℕ → ℕ → ℕ
or_arrival none arrival = arrival
or_arrival (some d) arrival = d

-- A stop with a known arrival is moved by the shift, with its time of service kept.
unfoldable pub move_stop : ℕ → ℕ → Stop → Schedule
unfolding ensure_utc apply_expected_stop_schedule
move_stop accumulated_shift raw_arrival stop =
    let raw_departure = or_arrival (ensure_utc stop.schedule.expected_departure_time) raw_arrival in
    let final_arrival = raw_arrival + accumulated_shift in
    let final_departure = raw_departure + accumulated_shift in
    let service_seconds = (final_departure - final_arrival) / second in
    apply_expected_stop_schedule (some (aware final_arrival)) (some service_seconds)

unfoldable pub clamp_stop : RawWindow → ℕ → Stop → Stop
unfolding arrival_of move_stop apply_stop_time_window_evaluation
clamp_stop plan accumulated_shift stop = elim (arrival_of stop) [
  | none ↦ record stop {
    warnings =
        apply_stop_time_window_evaluation stop.warnings stop.order plan none
          stop.schedule.expected_arrival_time;
  }
  | some raw_arrival ↦ record stop {
    schedule = move_stop accumulated_shift raw_arrival stop;
    warnings =
        apply_stop_time_window_evaluation stop.warnings stop.order plan
          (some (aware (raw_arrival + accumulated_shift))) none;
  }
]

-- The groups after the loop, and the shift that has accumulated. An empty group is skipped.
unfoldable pub clamp_groups : RawWindow → ℕ → List (List Stop) → List (List Stop) × ℕ
unfolding resolve_group_additional_shift clamp_stop
clamp_groups plan accumulated_shift [] = ([], accumulated_shift)
clamp_groups plan accumulated_shift (group ∷ groups) =
    let shift = accumulated_shift + resolve_group_additional_shift group plan accumulated_shift in
    let (rest, total) = clamp_groups plan shift groups in
    (map (clamp_stop plan shift) group ∷ rest, total)
