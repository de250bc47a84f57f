-- ===== src/Orders/Tests.antt =====
-- The theorems on order commands at a concrete request.
use next_mark_backend_v.Prelude.{ℕ, ◌≡◌, ◌≤◌, refl, true, false, none, some, List, [], ◌∷◌, length}
use next_mark_backend_v.Prelude.Sorting.{All, sort, insert}
use next_mark_backend_v.Result.{Result, ok, err}
use next_mark_backend_v.Orders.DeliveryWindows.{
  RawRow, ParsedOrderDeliveryWindow, parse_row, parse_rows, is_window_type, starts_first,
  sort_delivery_windows, validate_non_overlapping_delivery_windows,
  validate_and_normalize_delivery_windows, max_order_delivery_windows,
}
use next_mark_backend_v.Orders.DeliveryWindows.Sound.{
  Acceptable, Apart, validate_and_normalize-Sound,
}
use next_mark_backend_v.Team.{Context, require_team_id}
use next_mark_backend_v.Transitions.OrderStateId
use next_mark_backend_v.Transitions.Model.{OrderRow, Db, completed_name}
use next_mark_backend_v.Transitions.Cascade.{contains}
use next_mark_backend_v.Orders.Resolve.{
  dedupe_ids, find_order, visible, pick_order, pick_orders, resolve_orders_by_ids, resolve_orders,
  ids,
}
use next_mark_backend_v.Orders.StateUpdate.{
  apply_orders_state_transition, extract_incoming_order_note, parse_failure_note_payload, get_state,
  States, OrderState, not_a_dict, Outcome,
}
use next_mark_backend_v.Orders.StateUpdate.Effect.{InState}
use next_mark_backend_v.Orders.StateUpdate.Correct.{apply-InState}

abbrev row : ℕ → ℕ → RawRow
row s e = record {
  start_at = some s;
  end_at = some e;
  window_type = some "TIME_RANGE";
  client_id = none;
  client_id_is_text = true;
}

abbrev window : ℕ → ℕ → ParsedOrderDeliveryWindow
window s e = record { client_id = none; start_at = s; end_at = e; window_type = "TIME_RANGE" }

abbrev rows : List RawRow
rows = row 40 50 ∷ row 20 40 ∷ []

abbrev windows : List ParsedOrderDeliveryWindow
windows = window 20 40 ∷ window 40 50 ∷ []

validate_and_normalize-Sound_example :
    (length windows ≡ length rows)
    × (length windows ≤ max_order_delivery_windows)
    × All (Acceptable 10) windows
    × Apart windows
unfolding validate_and_normalize_delivery_windows parse_row parse_rows is_window_type starts_first
    sort_delivery_windows validate_non_overlapping_delivery_windows sort insert
validate_and_normalize-Sound_example = validate_and_normalize-Sound 10 rows windows refl

abbrev context : Context
context = record { team_id = some 9; check_team_id = true }

abbrev order : OrderRow
order = record {
  id = 1;
  team_id = some 9;
  order_notes = none;
  order_state_id = some OrderStateId.processing;
  route_plan_id = none;
  route_group_id = none;
}

abbrev db : Db
db = record { orders = order ∷ []; groups = []; plans = []; stop_groups = [] }

abbrev states : States
states i =
    some
      (record { id = i; team_id = none; is_system = true; name = completed_name; is_fail = false })

abbrev result_or : Result Outcome → Outcome → Outcome
result_or (ok r) d = r
result_or (err e) d = d

abbrev after : Outcome
after =
    result_or
      (apply_orders_state_transition context states not_a_dict 0 db (ids (1 ∷ []))
        OrderStateId.completed)
      (record { db = db; changed = []; events = [] })

apply-InState_example :
    (st : OrderState) × (states OrderStateId.completed ≡ some st)
    × All (λ i. InState i st.id after.db.orders) (1 ∷ [])
unfolding apply_orders_state_transition extract_incoming_order_note parse_failure_note_payload
    dedupe_ids find_order visible pick_order pick_orders resolve_orders_by_ids resolve_orders
    get_state require_team_id contains
apply-InState_example =
    apply-InState context states not_a_dict 0 db (1 ∷ []) OrderStateId.completed after refl
