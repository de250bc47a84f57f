-- ===== src/Messaging/Tests.antt =====
-- The theorem on offsets at a concrete template.
use next_mark_backend_v.Prelude.{◌≤◌, ◌≡◌, refl, false, not, ◌&&◌, some}
use next_mark_backend_v.Messaging.SchedulePolicy.{
  abs, negsuc, is_negative, event_supports_future_anchor, max_absolute_offset, validate_offset,
  validate_schedule_configuration, minutes_of, validate_schedule_configuration-bound,
}

validate_schedule_configuration-bound_example :
    (minutes_of "hours" (abs (negsuc 23)) ≤ 525_600)
    × ((is_negative (negsuc 23) && not (event_supports_future_anchor (some "order_rescheduled")))
        ≡ false)
unfolding event_supports_future_anchor max_absolute_offset validate_offset
    validate_schedule_configuration
validate_schedule_configuration-bound_example =
    validate_schedule_configuration-bound (some "order_rescheduled") (negsuc 23) "hours" refl
