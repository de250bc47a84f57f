-- ===== src/Routes/Schedule.antt =====
-- The expected schedule of a stop: `derive_expected_departure_time`, `apply_expected_stop_schedule`
-- and `clear_expected_stop_schedule` of
-- Delivery_app_BK/services/domain/route_operations/local_delivery/service_time.py.
use next_mark_backend_v.Prelude.{ℕ, ◌+◌, ◌*◌, Option, none, some}
use next_mark_backend_v.Moment.{Moment, naive, aware, second}

pub record Schedule : Type 0 where
  pub expected_arrival_time : Option Moment
  pub expected_service_duration_seconds : Option ℕ
  pub expected_departure_time : Option Moment

-- `moment + timedelta(microseconds=d)`.
unfoldable pub later : Moment → ℕ → Moment
later (naive t) d = naive (t + d)
later (aware t) d = aware (t + d)

-- `max(0, int(value or 0))`; the callers pass no negative durations.
abbrev pub seconds_or_zero : Option ℕ → ℕ
seconds_or_zero none = 0
seconds_or_zero (some n) = n

unfoldable pub derive_expected_departure_time : Option Moment → Option ℕ → Option Moment
unfolding later
derive_expected_departure_time none seconds = none
derive_expected_departure_time (some t) seconds = some (later t (seconds_or_zero seconds * second))

abbrev pub clear_expected_stop_schedule : Schedule
clear_expected_stop_schedule = record {
  expected_arrival_time = none;
  expected_service_duration_seconds = none;
  expected_departure_time = none;
}

unfoldable pub apply_expected_stop_schedule : Option Moment → Option ℕ → Schedule
unfolding derive_expected_departure_time
apply_expected_stop_schedule none seconds = clear_expected_stop_schedule
apply_expected_stop_schedule (some t) seconds =
    let normalized_service_seconds = seconds_or_zero seconds in
    record {
      expected_arrival_time = some t;
      expected_service_duration_seconds = some normalized_service_seconds;
      expected_departure_time =
          derive_expected_departure_time (some t) (some normalized_service_seconds);
    }
