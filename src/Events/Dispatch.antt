-- ===== src/Events/Dispatch.antt =====
-- Delivery_app_BK/services/infra/events/dispatcher.py and requeue.py: the rows of the event tables
-- (Delivery_app_BK/models/mixins/events/dispatch_state.py) on their way to the job queue.
pub mod Lease
pub mod Claims
use mathlib.Core.Option
use next_mark_backend_v.Prelude.{
  ℕ, zero, suc, ◌+◌, ◌*◌, String, Bool, true, false, ◌&&◌, Option, none, some, List, [], ◌∷◌, map,
  length, min, ltb, leb, if◌then◌else◌,
}
use next_mark_backend_v.Moment.{second}

pub data DispatchStatus : Type 0 where
  pending claimed dispatched failed dead : DispatchStatus

-- Instants are UTC.
pub record EventRow : Type 0 where
  pub id : ℕ
  pub dispatch_status : DispatchStatus
  pub dispatch_attempts : ℕ
  pub claimed_at : Option ℕ
  pub claimed_by : Option String
  pub next_attempt_at : ℕ
  pub last_error : Option String

abbrev pub max_dispatch_attempts : ℕ
max_dispatch_attempts = 5

abbrev pub is_pending : DispatchStatus → Bool
is_pending pending = true
is_pending claimed = false
is_pending dispatched = false
is_pending failed = false
is_pending dead = false

abbrev pub is_claimed : DispatchStatus → Bool
is_claimed pending = false
is_claimed claimed = true
is_claimed dispatched = false
is_claimed failed = false
is_claimed dead = false

-- `claimed_at < now - lease`.
abbrev pub older_than : ℕ → ℕ → Option ℕ → Bool
older_than now lease none = false
older_than now lease (some t) = ltb (t + lease) now

unfoldable pub is_stale : ℕ → ℕ → EventRow → Bool
is_stale now lease_seconds row =
    is_claimed row.dispatch_status && older_than now (lease_seconds * second) row.claimed_at

-- The clock is read for the threshold, `now`, and again for the row, `later`.
unfoldable pub repair_row : ℕ → ℕ → ℕ → EventRow → EventRow
unfolding is_stale
repair_row now later lease_seconds row =
    if is_stale now lease_seconds row
    then record row {
      dispatch_status = pending;
      claimed_by = none;
      claimed_at = none;
      dispatch_attempts = row.dispatch_attempts + 1;
      next_attempt_at = later;
    }
    else row

-- The rows of one table; `later` gives the reading for each row by its id.
unfoldable pub repair_stale_claims : ℕ → (ℕ → ℕ) → ℕ → List EventRow → List EventRow
unfolding repair_row
repair_stale_claims now later lease_seconds rows =
    map (λ row. repair_row now (later row.id) lease_seconds row) rows

abbrev pub claim_row : ℕ → String → EventRow → EventRow
claim_row now dispatcher_id row = record row {
  dispatch_status = claimed;
  claimed_by = some dispatcher_id;
  claimed_at = some now;
}

-- A row that a dispatcher takes: pending, due, and not locked by another transaction
-- (`skip_locked`).
unfoldable pub claimable : ℕ → (ℕ → Bool) → EventRow → Bool
claimable now unlocked row =
    is_pending row.dispatch_status && leb row.next_attempt_at now && unlocked row.id

unfoldable pub mark_claim_failed : ℕ → EventRow → String → EventRow
mark_claim_failed now row error_message =
    let attempts = row.dispatch_attempts + 1 in
    if leb max_dispatch_attempts attempts
    then record row {
      dispatch_attempts = attempts;
      claimed_by = none;
      claimed_at = none;
      last_error = some error_message;
      dispatch_status = dead;
    }
    else record row {
      dispatch_attempts = attempts;
      claimed_by = none;
      claimed_at = none;
      last_error = some error_message;
      dispatch_status = pending;
      next_attempt_at = now + min 300 (15 * attempts) * second;
    }

abbrev pub mark_dispatched : EventRow → EventRow
mark_dispatched row = record row {
  dispatch_status = dispatched;
  claimed_by = none;
  claimed_at = none;
  last_error = none;
}

-- What becomes of a claimed row, by the error of `enqueue_job` if it raised one (cut to 3000
-- characters).
unfoldable pub send_row : ℕ → EventRow → Option String → EventRow
unfolding mark_claim_failed
send_row now row none = mark_dispatched row
send_row now row (some error_message) = mark_claim_failed now row error_message

-- The rows of one table after its batch, in the order of their ids, and the ids that were claimed.
-- `enqueue` says for each id what the job queue answers, and `later` when a refusal is written.
unfoldable pub dispatch_rows :
    ℕ
    → (ℕ → ℕ)
    → String
    → (ℕ → Bool)
    → (ℕ → Option String)
    → ℕ
    → List EventRow
    → List EventRow × List ℕ
unfolding claimable send_row
dispatch_rows now later dispatcher_id unlocked enqueue batch_size [] = ([], [])
dispatch_rows now later dispatcher_id unlocked enqueue zero (row ∷ rows) = (row ∷ rows, [])
dispatch_rows now later dispatcher_id unlocked enqueue (suc batch_size) (row ∷ rows) =
    let (sent, sent_ids) = dispatch_rows now later dispatcher_id unlocked enqueue batch_size rows in
    let (kept, kept_ids) =
      dispatch_rows now later dispatcher_id unlocked enqueue (suc batch_size) rows in
    if claimable now unlocked row
    then (
      send_row (later row.id) (claim_row now dispatcher_id row) (enqueue row.id) ∷ sent,
      row.id ∷ sent_ids,
    )
    else (row ∷ kept, kept_ids)

pub data DispatchTarget : Type 0 where
  order_target route_plan_target app_target : DispatchTarget

-- The call's arguments, and what the run meets: its readings of the clock, the rows that other
-- transactions have locked, and the answers of the job queue. Rows are named by their ids.
pub record Run : Type 0 where
  pub dispatcher_id : String
  pub batch_size : ℕ
  pub lease_seconds : ℕ
  pub threshold : ℕ
  pub repaired_at : DispatchTarget → ℕ → ℕ
  pub claims_at : DispatchTarget → ℕ
  pub refused_at : DispatchTarget → ℕ → ℕ
  pub unlocked : DispatchTarget → ℕ → Bool
  pub enqueue : DispatchTarget → ℕ → Option String

-- The three event tables; `none` is a table that does not exist.
pub record EventTables : Type 0 where
  pub order_events : Option (List EventRow)
  pub route_plan_events : Option (List EventRow)
  pub app_events : Option (List EventRow)

abbrev pub repair_target : Run → DispatchTarget → Option (List EventRow) → Option (List EventRow)
repair_target run target none = none
repair_target run target (some rows) =
    some (repair_stale_claims run.threshold (run.repaired_at target) run.lease_seconds rows)

-- The loop of `repair_stale_claims` over the targets. The source also counts the rows.
unfoldable pub repair_tables : Run → EventTables → EventTables
unfolding repair_stale_claims
repair_tables run tables = record {
  order_events = repair_target run order_target tables.order_events;
  route_plan_events = repair_target run route_plan_target tables.route_plan_events;
  app_events = repair_target run app_target tables.app_events;
}

-- One round of the loop over the targets: the table after it, and the ids that were claimed.
unfoldable pub dispatch_target :
    Run → DispatchTarget → Option (List EventRow) → Option (List EventRow) × List ℕ
unfolding dispatch_rows
dispatch_target run target none = (none, [])
dispatch_target run target (some rows) =
    let (after, ids) =
      dispatch_rows (run.claims_at target) (run.refused_at target) run.dispatcher_id
        (run.unlocked target) (run.enqueue target) run.batch_size rows in
    (some after, ids)

pub record Outcome : Type 0 where
  pub tables : EventTables
  pub claimed_orders : List ℕ
  pub claimed_route_plans : List ℕ
  pub claimed_apps : List ℕ
  pub claimed_count : ℕ

-- The stale claims of all tables are repaired first; then each table has its batch.
unfoldable pub dispatch_pending_events : Run → EventTables → Outcome
unfolding repair_tables dispatch_target
dispatch_pending_events run tables =
    let repaired = repair_tables run tables in
    let (order_events, orders) = dispatch_target run order_target repaired.order_events in
    let (route_plan_events, route_plans) =
      dispatch_target run route_plan_target repaired.route_plan_events in
    let (app_events, apps) = dispatch_target run app_target repaired.app_events in
    record {
      tables = record {
        order_events = order_events;
        route_plan_events = route_plan_events;
        app_events = app_events;
      };
      claimed_orders = orders;
      claimed_route_plans = route_plans;
      claimed_apps = apps;
      claimed_count = length orders + length route_plans + length apps;
    }

-- `_requeue_event`, of an event that an operator replays.
unfoldable pub requeue_event : ℕ → EventRow → EventRow
requeue_event now row = record row {
  dispatch_status = pending;
  claimed_at = none;
  claimed_by = none;
  last_error = none;
  next_attempt_at = now;
}
