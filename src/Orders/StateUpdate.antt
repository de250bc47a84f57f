-- ===== src/Orders/StateUpdate.antt =====
-- Delivery_app_BK/services/commands/order/order_states/update_orders_state.py: one state for many
-- orders, with the events of
-- Delivery_app_BK/services/infra/events/builders/order/order_events.py.
pub mod Effect
pub mod Correct
use next_mark_backend_v.Prelude.{
  ℕ, String, Bool, true, false, not, ◌&&◌, ◌||◌, Option, none, some, List, [], ◌∷◌, ◌++◌, ◌==◌,
  str_eq, if◌then◌else◌,
}
use next_mark_backend_v.Result.{
  Result, ok, err, validation_failed, not_found, permission_denied, ◌>>=◌, ◌>>◌, guard,
}
use next_mark_backend_v.Team.{Context, require_team_id, ensure_instance_in_team}
use next_mark_backend_v.Transitions.Ids.{id_is}
use next_mark_backend_v.Transitions.Model.{
  OrderRow, OrderNote, Db, Names, draft_name, confirmed_name, preparing_name, ready_name,
  processing_name, completed_name, fail_name, cancelled_name,
}
use next_mark_backend_v.Transitions.Cascade.{contains, recompute_and_auto_complete_plans}
use next_mark_backend_v.Orders.Resolve.{
  OrdersArg, one_id, ids, instances, mixed, not_a_list, dedupe_ids, find_order, get_order, visible,
  pick_order, pick_orders, resolve_orders_by_ids, resolve_order_instances, resolve_orders,
}

-- A value of the request's JSON, as far as the note parser tells values apart.
pub data Json : Type 0 where
  missing null other : Json
  text : String → Json

-- `order_notes` of the request, on its own or under `fields`.
pub data RawNote : Type 0 where
  absent not_an_object : RawNote
  object : Json → Json → RawNote

pub data Incoming : Type 0 where
  not_a_dict : Incoming
  dict : RawNote → Option RawNote → Incoming

-- A row of the `order_state` table.
pub record OrderState : Type 0 where
  pub id : ℕ
  pub team_id : Option ℕ
  pub is_system : Bool
  pub name : String
  -- `str(name).strip().casefold() == "fail"`
  pub is_fail : Bool

pub data Event : Type 0 where
  status_changed : ℕ → Option ℕ → ℕ → String → Event
  lifecycle : ℕ → String → ℕ → Event

-- The table `order_state`, by id.
abbrev pub States : Type 0
States = ℕ → Option OrderState

unfoldable pub extract_incoming_order_note : Incoming → RawNote
extract_incoming_order_note not_a_dict = absent
extract_incoming_order_note (dict absent none) = absent
extract_incoming_order_note (dict absent (some nested)) = nested
extract_incoming_order_note (dict direct fields) = direct

note_content : Json → Result String
note_content missing = ok ""
note_content null = ok ""
note_content (text s) = ok s
note_content other = err validation_failed

abbrev is_failure : Json → Bool
is_failure (text s) = str_eq s "FAILURE"
is_failure _ = false

unfoldable pub parse_failure_note_payload : RawNote → ℕ → Result (Option OrderNote)
unfolding note_content
parse_failure_note_payload absent now = ok none
parse_failure_note_payload not_an_object now = err validation_failed
parse_failure_note_payload (object note_type content) now = do
  guard (is_failure note_type) validation_failed
  s ← note_content content
  ok (some (record { note_type = "FAILURE"; content = s; creation_date = now }))

-- `get_instance(ctx, OrderState, state_id)`: rows of the system belong to every team.
unfoldable pub get_state : Context → States → ℕ → Result OrderState
unfolding ensure_instance_in_team
get_state ctx states i = elim (states i) [
  | none ↦ err not_found
  | some st ↦
      if ctx.check_team_id && not st.is_system
      then (do ensure_instance_in_team st.team_id ctx; ok st)
      else ok st
]

-- `ORDER_STATE_EVENT_BY_NAME.get(state_name, "order_failed")`.
unfoldable pub event_name : String → String
event_name n =
    if str_eq n draft_name
    then "order_created"
    else if str_eq n confirmed_name
    then "order_confirmed"
    else if str_eq n preparing_name
    then "order_preparing"
    else if str_eq n ready_name
    then "order_ready"
    else if str_eq n processing_name
    then "order_processing"
    else if str_eq n completed_name
    then "order_completed"
    else if str_eq n cancelled_name
    then "order_cancelled"
    else "order_failed"

unfoldable pub build_order_state_transition_events : ℕ → Option ℕ → OrderState → List Event
unfolding event_name
build_order_state_transition_events order_id old_state_id st =
    if id_is old_state_id st.id
    then []
    else status_changed order_id old_state_id st.id st.name
      ∷ lifecycle order_id (event_name st.name) st.id
      ∷ []

abbrev pub notes_or_empty : Option (List OrderNote) → List OrderNote
notes_or_empty none = []
notes_or_empty (some ns) = ns

-- The failure note is added on a transition to Fail only.
unfoldable pub with_state : OrderState → Option OrderNote → OrderRow → OrderRow
with_state st none o = record o { order_state_id = some st.id }
with_state st (some failure_note) o =
    if st.is_fail
    then record o {
      order_state_id = some st.id;
      order_notes = some (notes_or_empty o.order_notes ++ failure_note ∷ []);
    }
    else record o { order_state_id = some st.id }

unfoldable pub write_order : OrderRow → List OrderRow → List OrderRow
write_order new [] = []
write_order new (o ∷ os) = (if o.id == new.id then new else o) ∷ write_order new os

-- The rows after the loop, the changed orders and the events.
pub record Applied : Type 0 where
  pub rows : List OrderRow
  pub changed : List OrderRow
  pub events : List Event

unfoldable pub transition_orders :
    OrderState → Option OrderNote → List OrderRow → List OrderRow → Applied
unfolding with_state write_order build_order_state_transition_events
transition_orders st failure_note rows [] = record { rows = rows; changed = []; events = [] }
transition_orders st failure_note rows (o ∷ os) =
    let skipped = transition_orders st failure_note rows os in
    let new = with_state st failure_note o in
    let after = transition_orders st failure_note (write_order new rows) os in
    if id_is o.order_state_id st.id then skipped else record {
      rows = after.rows;
      changed = new ∷ after.changed;
      events = build_order_state_transition_events o.id o.order_state_id st ++ after.events;
    }

-- The tables, the changed orders and the events that the caller emits.
pub record Outcome : Type 0 where
  pub db : Db
  pub changed : List OrderRow
  pub events : List Event

-- `if changed_orders: _recompute_and_auto_complete_plans(changed_orders)`.
unfoldable pub finish_changed : Names → Db → List OrderRow → List OrderRow → Db
unfolding recompute_and_auto_complete_plans
finish_changed names db rows [] = db
finish_changed names db rows (o ∷ os) =
    recompute_and_auto_complete_plans names (o ∷ os) (record db { orders = rows })

unfoldable pub finish : Names → Db → Applied → Outcome
unfolding finish_changed
finish names db a = record {
  db = finish_changed names db a.rows a.changed;
  changed = a.changed;
  events = a.events;
}

-- The names that the counters are grouped by come from the same table.
abbrev pub names_of : States → Names
names_of states i = elim (states i) [ none ↦ none | some st ↦ some st.name ]

unfoldable pub apply_orders_state_transition :
    Context → States → Incoming → ℕ → Db → OrdersArg → ℕ → Result Outcome
unfolding get_state extract_incoming_order_note parse_failure_note_payload resolve_orders
    transition_orders finish
apply_orders_state_transition ctx states incoming now db orders state_id = do
  st ← get_state ctx states state_id
  failure_note ← parse_failure_note_payload (extract_incoming_order_note incoming) now
  os ← resolve_orders ctx db.orders orders
  ok (finish (names_of states) db (transition_orders st failure_note db.orders os))
