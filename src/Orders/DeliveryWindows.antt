-- ===== src/Orders/DeliveryWindows.antt =====
-- Delivery_app_BK/services/domain/order/delivery_windows.py: the delivery windows that a request
-- may give an order.
pub mod Sound
use mathlib.Core.Option
use next_mark_backend_v.Prelude.{
  ℕ, zero, suc, ◌+◌, String, Bool, true, false, ◌&&◌, ◌||◌, not, Option, none, some, List, [], ◌∷◌,
  ◌==◌, ltb, leb, length, str_eq,
}
use next_mark_backend_v.Prelude.Sorting.{sort}
use next_mark_backend_v.Result.{
  Result, ok, err, validation_failed, delivery_window_past_time, delivery_window_overlap,
  delivery_window_limit_exceeded, ◌>>=◌, ◌>>◌, guard,
}

abbrev pub max_order_delivery_windows : ℕ
max_order_delivery_windows = 14

-- `window_type in ORDER_DELIVERY_WINDOW_TYPES`.
unfoldable pub is_window_type : String → Bool
is_window_type s =
    str_eq s "EXACT_DATETIME"
    || str_eq s "DATE_ONLY"
    || str_eq s "TIME_RANGE"
    || str_eq s "DATE_RANGE"
    || str_eq s "FULL_RANGE"

-- A row of the request. `start_at` and `end_at` are what `_parse_strict_utc_datetime` makes of
-- them, `none` where it raises; the texts are stripped, and `none` where they are no text or blank.
-- `client_id_is_text` says that the client id is a text or is not given.
pub record RawRow : Type 0 where
  pub start_at : Option ℕ
  pub end_at : Option ℕ
  pub window_type : Option String
  pub client_id : Option String
  pub client_id_is_text : Bool

pub record ParsedOrderDeliveryWindow : Type 0 where
  pub client_id : Option String
  pub start_at : ℕ
  pub end_at : ℕ
  pub window_type : String

abbrev pub required {ℓ} : {A : Type ℓ} → Option A → Result A
required none = err validation_failed
required (some a) = ok a

unfoldable pub parse_row : ℕ → RawRow → Result ParsedOrderDeliveryWindow
unfolding is_window_type
parse_row now row = do
  start_at ← required row.start_at
  end_at ← required row.end_at
  guard (leb now start_at) delivery_window_past_time
  guard (ltb start_at end_at) validation_failed
  window_type ← required row.window_type
  guard (is_window_type window_type) validation_failed
  guard row.client_id_is_text validation_failed
  ok record {
    client_id = row.client_id;
    start_at = start_at;
    end_at = end_at;
    window_type = window_type;
  }

-- The loop, at one reading of the clock.
unfoldable pub parse_rows : ℕ → List RawRow → Result (List ParsedOrderDeliveryWindow)
unfolding parse_row
parse_rows now [] = ok []
parse_rows now (row ∷ rows) = do
  parsed ← parse_row now row
  rest ← parse_rows now rows
  ok (parsed ∷ rest)

-- The sort key `(start_at, end_at)`.
unfoldable pub starts_first : ParsedOrderDeliveryWindow → ParsedOrderDeliveryWindow → Bool
starts_first v w = ltb v.start_at w.start_at || (v.start_at == w.start_at && leb v.end_at w.end_at)

unfoldable pub sort_delivery_windows :
    List ParsedOrderDeliveryWindow → List ParsedOrderDeliveryWindow
unfolding starts_first sort
sort_delivery_windows windows = sort starts_first windows

unfoldable pub validate_non_overlapping_delivery_windows :
    List ParsedOrderDeliveryWindow → Result (Unit {0})
validate_non_overlapping_delivery_windows [] = ok tt
validate_non_overlapping_delivery_windows (previous ∷ []) = ok tt
validate_non_overlapping_delivery_windows (previous ∷ current ∷ windows) = do
  guard (leb previous.end_at current.start_at) delivery_window_overlap
  validate_non_overlapping_delivery_windows (current ∷ windows)

-- `none` is a request that does not give the field; a value that is no list is not modelled.
unfoldable pub validate_and_normalize_delivery_windows :
    ℕ → Option (List RawRow) → Result (List ParsedOrderDeliveryWindow)
unfolding parse_rows sort_delivery_windows validate_non_overlapping_delivery_windows
validate_and_normalize_delivery_windows now none = ok []
validate_and_normalize_delivery_windows now (some rows) = do
  guard (leb (length rows) max_order_delivery_windows) delivery_window_limit_exceeded
  parsed_rows ← parse_rows now rows
  validate_non_overlapping_delivery_windows (sort_delivery_windows parsed_rows)
  ok (sort_delivery_windows parsed_rows)
