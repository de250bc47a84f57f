-- ===== src/Directions/Windows.antt =====
-- Delivery_app_BK/directions/services/time_window_policy.py: the windows in which an order may be
-- delivered, and the warnings on a stop that misses them.
pub mod Next
pub mod Warnings
use mathlib.Core.Option
use next_mark_backend_v.Prelude.{
  ℕ, ◌-◌, String, Bool, true, false, not, ◌&&◌, ◌||◌, Option, none, some, List, [], ◌∷◌, ◌++◌, map,
  ◌==◌, ltb, leb, str_eq, if◌then◌else◌,
}
use next_mark_backend_v.Prelude.Sorting.{sort}
use next_mark_backend_v.Moment.{Moment, aware, utc, ensure_utc}

-- A window as it comes: either end may be missing.
abbrev pub RawWindow : Type 0
RawWindow = Option Moment × Option Moment

-- Two UTC instants.
pub record Window : Type 0 where
  pub start_at : ℕ
  pub end_at : ℕ

abbrev pub as_raw : Window → RawWindow
as_raw w = (some (aware w.start_at), some (aware w.end_at))

-- `not start or not end or end <= start` drops a window.
unfoldable pub valid_window : Option ℕ → Option ℕ → List Window → List Window
valid_window (some start) (some end) rest =
    if leb end start then rest else record { start_at = start; end_at = end } ∷ rest
valid_window _ _ rest = rest

unfoldable pub valid_windows : List RawWindow → List Window
unfolding valid_window ensure_utc
valid_windows [] = []
valid_windows ((start, end) ∷ ws) =
    valid_window (ensure_utc start) (ensure_utc end) (valid_windows ws)

-- The order of the sort key `(start, end)`.
unfoldable pub window_le : Window → Window → Bool
window_le v w = ltb v.start_at w.start_at || (v.start_at == w.start_at && leb v.end_at w.end_at)

unfoldable pub normalize_windows : List RawWindow → List Window
unfolding valid_windows window_le sort
normalize_windows windows = sort window_le (valid_windows windows)

unfoldable pub is_arrival_inside_any_window : ℕ → List Window → Bool
is_arrival_inside_any_window t [] = false
is_arrival_inside_any_window t (w ∷ ws) =
    leb w.start_at t && ltb t w.end_at || is_arrival_inside_any_window t ws

-- The loop over neighbouring windows: the nearer side of the gap that holds the arrival, or else
-- the last window.
unfoldable pub pick_from : ℕ → Window → List Window → Window
pick_from t previous [] = previous
pick_from t previous (current ∷ ws) =
    let rest = pick_from t current ws in
    if leb previous.end_at t && ltb t current.start_at
    then (if leb (t - previous.end_at) (current.start_at - t) then previous else current)
    else rest

unfoldable pub pick_reference_window : ℕ → List Window → Option Window
unfolding pick_from
pick_reference_window t [] = none
pick_reference_window t (w ∷ ws) = some (if ltb t w.start_at then w else pick_from t w ws)

-- A warning on a stop: of this policy, or of another kind.
pub data Warning : Type 0 where
  time_window_violation : ℕ → Window → Warning
  other_warning : String → Warning

unfoldable pub warning_for : ℕ → Option Window → List Warning
warning_for t none = []
warning_for t (some w) = time_window_violation t w ∷ []

unfoldable pub warnings_at : ℕ → List Window → List Warning
unfolding is_arrival_inside_any_window pick_reference_window warning_for
warnings_at t [] = []
warnings_at t (w ∷ ws) =
    if is_arrival_inside_any_window t (w ∷ ws)
    then []
    else warning_for t (pick_reference_window t (w ∷ ws))

unfoldable pub build_stop_time_warnings_for_windows : Option Moment → List RawWindow → List Warning
unfolding ensure_utc normalize_windows warnings_at
build_stop_time_warnings_for_windows arrival_time windows = elim (ensure_utc arrival_time) [
  | none ↦ []
  | some t ↦ warnings_at t (normalize_windows windows)
]

-- What the policy reads of an order and of the route's plan: the rows of `delivery_windows`, and
-- the plan's `start_date` and `end_date` (missing if the route has no plan).
pub record Order : Type 0 where
  pub id : ℕ
  pub delivery_windows : List RawWindow

unfoldable pub build_effective_windows : Order → RawWindow → List Window
unfolding normalize_windows valid_window ensure_utc
build_effective_windows order (base_date, base_end_date) =
    elim (normalize_windows (map as_raw (normalize_windows order.delivery_windows))) [
      | [] ↦ valid_window (ensure_utc base_date) (ensure_utc base_end_date) []
      | w ∷ ws ↦ w ∷ ws
    ]

unfoldable pub build_stop_time_warnings : Option Order → Option Moment → RawWindow → List Warning
unfolding build_effective_windows build_stop_time_warnings_for_windows
build_stop_time_warnings none arrival_time plan = []
build_stop_time_warnings (some order) arrival_time plan =
    build_stop_time_warnings_for_windows arrival_time
      (map as_raw (build_effective_windows order plan))

-- The columns of a stop that the policy writes.
pub record WarningState : Type 0 where
  pub has_constraint_violation : Bool
  pub constraint_warnings : Option (List Warning)
  pub reason_was_skipped : Option String

abbrev pub outside_time_window : String
outside_time_window = "This order could not be scheduled within the allowed delivery time window."

abbrev is_other : Warning → Bool
is_other (time_window_violation _ _) = false
is_other (other_warning _) = true

-- The existing warnings of other kinds.
unfoldable pub other_warnings : List Warning → List Warning
other_warnings [] = []
other_warnings (w ∷ ws) = if is_other w then w ∷ other_warnings ws else other_warnings ws

abbrev pub warnings_or_empty : Option (List Warning) → List Warning
warnings_or_empty none = []
warnings_or_empty (some ws) = ws

abbrev pub none_if_empty : List Warning → Option (List Warning)
none_if_empty [] = none
none_if_empty (w ∷ ws) = some (w ∷ ws)

abbrev pub is_filled : List Warning → Bool
is_filled [] = false
is_filled (w ∷ ws) = true

-- The skip reason of this policy is taken back; any other stays.
unfoldable pub clear_reason : Option String → Option String
clear_reason none = none
clear_reason (some r) = if str_eq r outside_time_window then none else some r

unfoldable pub merge_time_window_warning : WarningState → List Warning → WarningState
unfolding other_warnings clear_reason
merge_time_window_warning stop [] =
    let filtered = other_warnings (warnings_or_empty stop.constraint_warnings) in
    record {
      has_constraint_violation = is_filled filtered;
      constraint_warnings = none_if_empty filtered;
      reason_was_skipped = clear_reason stop.reason_was_skipped;
    }
merge_time_window_warning stop (w ∷ ws) =
    let filtered = other_warnings (warnings_or_empty stop.constraint_warnings) in
    record {
      has_constraint_violation = true;
      constraint_warnings = some (filtered ++ w ∷ ws);
      reason_was_skipped = some outside_time_window;
    }

-- `arrival_time or stop.expected_arrival_time`.
abbrev pub or_else {ℓ} : {A : Type ℓ} → Option A → Option A → Option A
or_else none d = d
or_else (some a) d = some a

-- The new columns. The source also returns whether they differ from the old ones.
unfoldable pub apply_stop_time_window_evaluation :
    WarningState → Option Order → RawWindow → Option Moment → Option Moment → WarningState
unfolding ensure_utc build_stop_time_warnings merge_time_window_warning
apply_stop_time_window_evaluation stop order plan arrival_time expected_arrival_time =
    let resolved_arrival =
      Option.map aware (ensure_utc (or_else arrival_time expected_arrival_time)) in
    merge_time_window_warning stop (build_stop_time_warnings order resolved_arrival plan)

unfoldable pub apply_stop_time_window_evaluation_for_windows :
    WarningState → Option Moment → List RawWindow → WarningState
unfolding build_stop_time_warnings_for_windows merge_time_window_warning
apply_stop_time_window_evaluation_for_windows stop arrival_time windows =
    merge_time_window_warning stop (build_stop_time_warnings_for_windows arrival_time windows)

unfoldable pub first_after : ℕ → List Window → Option ℕ
first_after t [] = none
first_after t (w ∷ ws) = if ltb t w.start_at then some w.start_at else first_after t ws

unfoldable pub next_start : ℕ → List Window → Option ℕ
unfolding is_arrival_inside_any_window first_after
next_start t ws = if is_arrival_inside_any_window t ws then none else first_after t ws

unfoldable pub resolve_next_window_start : Option Moment → List RawWindow → Option ℕ
unfolding ensure_utc normalize_windows next_start
resolve_next_window_start arrival_time windows = elim (ensure_utc arrival_time) [
  | none ↦ none
  | some t ↦ next_start t (normalize_windows windows)
]
