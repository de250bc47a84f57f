-- ===== src/Messaging/SchedulePolicy.antt =====
-- Delivery_app_BK/services/domain/messaging/schedule_policy.py: by how much a message may be set off
-- from its event.
use next_mark_backend_v.Prelude.{
  ℕ, suc, ◌*◌, ◌≤◌, ◌≡◌, String, Bool, true, false, not, ◌&&◌, ◌||◌, Option, none, some, str_eq,
  leb, if◌then◌else◌, arith,
}
use next_mark_backend_v.Result.{Result, ok, err, validation_failed, ◌>>◌, guard}

pub data ℤ : Type 0 where
  pos : ℕ → ℤ
  negsuc : ℕ → ℤ

abbrev pub abs : ℤ → ℕ
abs (pos n) = n
abs (negsuc n) = suc n

abbrev pub is_negative : ℤ → Bool
is_negative (pos n) = false
is_negative (negsuc n) = true

-- A given offset: an integer, or another value of the request (a Boolean among them).
pub data OffsetValue : Type 0 where
  integer : ℤ → OffsetValue
  not_an_integer : OffsetValue

-- `event_name in FUTURE_ANCHOR_EVENTS`.
unfoldable pub event_supports_future_anchor : Option String → Bool
event_supports_future_anchor none = false
event_supports_future_anchor (some event_name) =
    str_eq event_name "order_delivery_window_changed_by_user"
    || str_eq event_name "order_delivery_plan_changed"
    || str_eq event_name "order_rescheduled"
    || str_eq event_name "delivery_plan_rescheduled"

-- `MAX_ABSOLUTE_OFFSET_BY_UNIT`, whose keys are the allowed units.
unfoldable pub max_absolute_offset : String → Option ℕ
max_absolute_offset unit =
    if str_eq unit "minutes"
    then some 525_600
    else if str_eq unit "hours"
    then some 8_760
    else if str_eq unit "days"
    then some 365
    else none

unfoldable pub validate_offset : Option String → ℤ → Option ℕ → Result (Unit {0})
unfolding event_supports_future_anchor
validate_offset event_name offset none = err validation_failed
validate_offset event_name offset (some max_absolute_value) = do
  guard (leb (abs offset) max_absolute_value) validation_failed
  guard (not (is_negative offset && not (event_supports_future_anchor event_name)))
      validation_failed

unfoldable pub validate_schedule_configuration :
    Option String → Option OffsetValue → Option String → Result (Unit {0})
unfolding validate_offset max_absolute_offset
validate_schedule_configuration event_name none none = ok tt
validate_schedule_configuration event_name none (some unit) = err validation_failed
validate_schedule_configuration event_name (some value) none = err validation_failed
validate_schedule_configuration event_name (some not_an_integer) (some unit) = err validation_failed
validate_schedule_configuration event_name (some (integer offset)) (some unit) =
    validate_offset event_name offset (max_absolute_offset unit)

-- The offset in minutes.
abbrev pub minutes_of : String → ℕ → ℕ
minutes_of unit n =
    if str_eq unit "minutes" then n else if str_eq unit "hours" then 60 * n else 1_440 * n

-- An offset that is accepted is at most a year of 365 days in either direction, whatever its unit,
-- and is not before the event unless the event has a business time in the future.
pub validate_schedule_configuration-bound :
    (event_name : Option String) (offset : ℤ) (unit : String)
    → validate_schedule_configuration event_name (some (integer offset)) (some unit) ≡ ok tt
    → (minutes_of unit (abs offset) ≤ 525_600)
      × ((is_negative offset && not (event_supports_future_anchor event_name)) ≡ false)
unfolding validate_schedule_configuration max_absolute_offset validate_offset
validate_schedule_configuration-bound event_name offset unit e = (ground arith, ground arith)
