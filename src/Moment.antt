-- ===== src/Moment.antt =====
-- Python's `datetime` as the program uses it, and `ensure_utc` of
-- Delivery_app_BK/directions/services/time_window_policy.py.
use next_mark_backend_v.Prelude.{ℕ, Option, none, some}

-- Microseconds from the epoch: on a wall clock with no zone, or on the UTC scale.
pub data Moment : Type 0 where
  naive : ℕ → Moment
  aware : ℕ → Moment

-- A moment with no zone is read as UTC; a moment with a zone stands for its UTC instant.
unfoldable pub utc : Moment → ℕ
utc (naive t) = t
utc (aware t) = t

unfoldable pub ensure_utc : Option Moment → Option ℕ
unfolding utc
ensure_utc none = none
ensure_utc (some m) = some (utc m)

-- `timedelta(seconds=1)` on this scale.
abbrev pub second : ℕ
second = 1_000_000
