-- ===== src/Events/Tests.antt =====
-- The theorems on dispatch at a concrete table.
use next_mark_backend_v.Prelude.{
  ℕ, ◌≡◌, ◌≤◌, ◌+◌, ◌*◌, ◌⊎◌, suc, refl, String, Bool, true, Option, none, some, [], ◌∷◌, leb, ◌==◌,
  if◌then◌else◌,
}
use next_mark_backend_v.Moment.{second}
use next_mark_backend_v.Events.Dispatch.{
  EventRow, pending, claimed, dead, order_target, route_plan_target, app_target, Run, EventTables,
  dispatch_pending_events,
}
use next_mark_backend_v.Events.Dispatch.Claims.{
  AllConsistent, Handled, most, dispatch_pending_events-Consistent, dispatch_pending_events-claims,
}
use next_mark_backend_v.Events.Dispatch.Lease.{refused, status-refused}

abbrev fresh : EventRow
fresh = record {
  id = 1;
  dispatch_status = pending;
  dispatch_attempts = 0;
  claimed_at = none;
  claimed_by = none;
  next_attempt_at = 10;
  last_error = none;
}

abbrev abandoned : EventRow
abandoned = record fresh {
  id = 2;
  dispatch_status = claimed;
  claimed_at = some 5;
  claimed_by = some "worker-a";
}

abbrev unlocked : ℕ → Bool
unlocked i = i == 1

abbrev queue : ℕ → Option String
queue i = if i == 1 then some "connection refused" else none

abbrev run : Run
run = record {
  dispatcher_id = "worker-b";
  batch_size = 10;
  lease_seconds = 30;
  threshold = 90_000_000;
  repaired_at = λ target i. 90_000_001;
  claims_at = λ target. 90_000_002;
  refused_at = λ target i. 90_000_003 + i;
  unlocked = λ target. unlocked;
  enqueue = λ target. queue;
}

abbrev tables : EventTables
tables = record {
  order_events = some (fresh ∷ abandoned ∷ []);
  route_plan_events = some (fresh ∷ []);
  app_events = none;
}

dispatch_pending_events-Consistent_example :
    AllConsistent (dispatch_pending_events run tables).tables
dispatch_pending_events-Consistent_example =
    dispatch_pending_events-Consistent run tables
      (((refl, refl), ((refl, refl), tt)), ((refl, refl), tt), tt)

dispatch_pending_events-claims_example :
    let outcome = dispatch_pending_events run tables in
    Handled run order_target tables.order_events outcome.tables.order_events outcome.claimed_orders
    × Handled run route_plan_target tables.route_plan_events outcome.tables.route_plan_events
        outcome.claimed_route_plans
    × Handled run app_target tables.app_events outcome.tables.app_events outcome.claimed_apps
    × (outcome.claimed_count
        ≤ most run tables.order_events
          + most run tables.route_plan_events
          + most run tables.app_events)
dispatch_pending_events-claims_example = dispatch_pending_events-claims run tables

status-refused_example :
    let after = refused (suc 4) (λ k. k * second) "worker-b" "connection refused" fresh in
    (after.dispatch_status ≡ (if leb 5 (fresh.dispatch_attempts + suc 4) then dead else pending))
    × ((leb 5 (fresh.dispatch_attempts + suc 4) ≡ true)
        ⊎ ((4 * second + 15 * second ≤ after.next_attempt_at)
            × (after.next_attempt_at ≤ 4 * second + 300 * second)))
status-refused_example = status-refused 4 (λ k. k * second) "worker-b" "connection refused" fresh
