-- ===== src/Routes/ServiceTime.antt =====
-- Delivery_app_BK/services/domain/route_operations/local_delivery/service_time.py: how long a stop
-- takes. The texts of durations in the old format are not parsed here.
pub mod Normal
use next_mark_backend_v.Prelude.{
  ℕ, ◌+◌, ◌*◌, Bool, true, false, not, ◌&&◌, ◌||◌, Option, none, some, List, [], ◌∷◌, if◌then◌else◌,
}
use next_mark_backend_v.Prelude.Rows.{is_some}
use next_mark_backend_v.Result.{Result, ok, err, validation_failed, ◌>>=◌, ◌>>◌, guard}

-- A value of the request, as far as the coercion tells values apart; `digits` is a text that is a
-- decimal number once it is stripped. A text that `str.isdigit` takes and `int` refuses, such as a
-- superscript digit, is none of these: there the source raises ValueError.
pub data Value : Type 0 where
  integer whole_float digits : ℕ → Value
  negative_integer other_float other_text other_value : Value

-- The payload: its keys `time` and `per_item`, `none` where a key is missing.
pub data Payload : Type 0 where
  null not_an_object : Payload
  object : Option Value → Option Value → Payload

pub record ServiceTime : Type 0 where
  pub time : ℕ
  pub per_item : ℕ

unfoldable pub coerce_non_negative_int : Value → Option ℕ
coerce_non_negative_int (integer n) = some n
coerce_non_negative_int (whole_float n) = some n
coerce_non_negative_int (digits n) = some n
coerce_non_negative_int negative_integer = none
coerce_non_negative_int other_float = none
coerce_non_negative_int other_text = none
coerce_non_negative_int other_value = none

abbrev pub coerced : Option Value → Option ℕ
coerced none = none
coerced (some value) = coerce_non_negative_int value

abbrev pub or_zero : Option ℕ → ℕ
or_zero none = 0
or_zero (some n) = n

-- Whether a key that is there has no integer.
abbrev pub is_bad : Option Value → Bool
is_bad value = is_some value && not (is_some (coerced value))

unfoldable pub service_time_of : Option ℕ → Option ℕ → Option ServiceTime
service_time_of none none = none
service_time_of (some t) per_item = some (record { time = t; per_item = or_zero per_item })
service_time_of none (some p) = some (record { time = 0; per_item = p })

unfoldable pub normalize_service_time_payload : Bool → Payload → Result (Option ServiceTime)
unfolding coerce_non_negative_int service_time_of
normalize_service_time_payload strict null = ok none
normalize_service_time_payload strict not_an_object =
    if strict then err validation_failed else ok none
normalize_service_time_payload strict (object time per_item) = do
  guard (not (strict && not (is_some time) && not (is_some per_item))) validation_failed
  guard (not (strict && is_bad time)) validation_failed
  guard (not (strict && is_bad per_item)) validation_failed
  ok (service_time_of (coerced time) (coerced per_item))

-- The call without `strict`, which raises nothing.
abbrev pub lenient : Result (Option ServiceTime) → Option ServiceTime
lenient (err _) = none
lenient (ok service_time) = service_time

abbrev pub first_given : Option ServiceTime → Option ServiceTime → Option ServiceTime
first_given none second = second
first_given (some s) second = some s

unfoldable pub resolve_effective_service_time_payload : Payload → Payload → Option ServiceTime
unfolding normalize_service_time_payload
resolve_effective_service_time_payload stop route =
    first_given (lenient (normalize_service_time_payload false stop))
      (lenient (normalize_service_time_payload false route))

-- An item counts once where its quantity is no integer.
unfoldable pub resolve_order_item_quantity : List Value → ℕ
unfolding coerce_non_negative_int
resolve_order_item_quantity [] = 0
resolve_order_item_quantity (quantity ∷ items) = elim (coerce_non_negative_int quantity) [
  | none ↦ 1 + resolve_order_item_quantity items
  | some n ↦ n + resolve_order_item_quantity items
]

abbrev pub payload_of : ServiceTime → Payload
payload_of s = object (some (integer s.time)) (some (integer s.per_item))

-- The seconds of a payload for a number of items, which is not negative.
unfoldable pub calculate_service_time_seconds : Payload → ℕ → Option ℕ
unfolding normalize_service_time_payload
calculate_service_time_seconds payload item_quantity =
    elim (lenient (normalize_service_time_payload false payload)) [
      | none ↦ none
      | some s ↦ some (s.time + item_quantity * s.per_item)
    ]

abbrev pub payload_or_null : Option ServiceTime → Payload
payload_or_null none = null
payload_or_null (some s) = payload_of s

-- `parsed_legacy` is what `parse_duration_seconds` makes of the old duration, or 0 where that is
-- negative.
unfoldable pub resolve_expected_service_duration_seconds :
    Payload → Payload → ℕ → Option ℕ → Option ℕ
unfolding resolve_effective_service_time_payload calculate_service_time_seconds
resolve_expected_service_duration_seconds stop route item_quantity parsed_legacy =
    elim (calculate_service_time_seconds
      (payload_or_null (resolve_effective_service_time_payload stop route)) item_quantity) [
        | none ↦ parsed_legacy
        | some seconds ↦ some seconds
      ]
