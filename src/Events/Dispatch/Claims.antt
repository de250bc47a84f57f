-- ===== src/Events/Dispatch/Claims.antt =====
-- What a run of the dispatcher does with the rows of the event tables.
use mathlib.Core.List.{Mem, mem-cons_of_mem, mem-cons_self}
use next_mark_backend_v.Prelude.{
  ℕ, zero, suc, ◌+◌, ◌≤◌, ◌≡◌, refl, ◌⊎◌, inl, inr, String, Bool, true, false, Option, none, some,
  List, [], ◌∷◌, length, arith, Bool-cases,
}
use next_mark_backend_v.Prelude.Sorting.{All}
use next_mark_backend_v.Prelude.Rows.{is_some, OnSome}
use next_mark_backend_v.Events.Dispatch.{
  EventRow, is_claimed, is_stale, repair_row, repair_stale_claims, claim_row, claimable,
  mark_claim_failed, send_row, dispatch_rows, DispatchTarget, order_target, route_plan_target,
  app_target, Run, EventTables, repair_target, repair_tables, dispatch_target,
  dispatch_pending_events,
}

-- A claim has an owner and a time, and only a claimed row has them.
abbrev pub Consistent : EventRow → Type 0
Consistent row =
    (is_some row.claimed_at ≡ is_claimed row.dispatch_status)
    × (is_some row.claimed_by ≡ is_claimed row.dispatch_status)

repair_row-Consistent :
    (now later lease : ℕ) (row : EventRow)
    → Consistent row
    → Consistent (repair_row now later lease row)
unfolding repair_row
repair_row-Consistent now later lease row h = ground arith

send_row-Consistent :
    (now : ℕ) (row : EventRow) (error : Option String) → Consistent (send_row now row error)
unfolding send_row mark_claim_failed
send_row-Consistent now row none = (refl, refl)
send_row-Consistent now row (some e) = ground arith

-- What holds of a row that the table ends with.
abbrev pub Left : ℕ → ℕ → List EventRow → EventRow → Type 0
Left now lease rows row =
    (is_claimed row.dispatch_status ≡ false) ⊎ ((is_stale now lease row ≡ false) × Mem row rows)

module _ (now : ℕ) (later : ℕ → ℕ) (dispatcher_id : String) (unlocked : ℕ → Bool)
    (enqueue : ℕ → Option String) where
  dispatch_rows-All :
      (P : EventRow → Type 0) (batch_size : ℕ) (rows : List EventRow)
      → ((row : EventRow) (error : Option String)
          → P (send_row (later row.id) (claim_row now dispatcher_id row) error))
      → All P rows
      → All P (dispatch_rows now later dispatcher_id unlocked enqueue batch_size rows).0
  unfolding dispatch_rows
  dispatch_rows-All P batch_size [] sent h = tt
  dispatch_rows-All P zero (row ∷ rows) sent h = h
  dispatch_rows-All P (suc batch_size) (row ∷ rows) sent h =
      elim (Bool-cases (claimable now unlocked row)) [
        | inl take ↦
            rw take (sent row (enqueue row.id), dispatch_rows-All P batch_size rows sent h.1)
        | inr skip ↦ rw skip (h.0, dispatch_rows-All P (suc batch_size) rows sent h.1)
      ]

  dispatch_rows-bound :
      (batch_size : ℕ) (rows : List EventRow)
      → let ids = (dispatch_rows now later dispatcher_id unlocked enqueue batch_size rows).1 in
        (length ids ≤ batch_size) × All (λ i. unlocked i ≡ true) ids
  unfolding dispatch_rows claimable
  dispatch_rows-bound batch_size [] = (omega arith, tt)
  dispatch_rows-bound zero (row ∷ rows) = (omega arith, tt)
  dispatch_rows-bound (suc batch_size) (row ∷ rows) =
      elim (Bool-cases (claimable now unlocked row)) [
        | inl take ↦
            let rest = dispatch_rows-bound batch_size rows in
            rw take (omega (arith, rest.0), (ground arith, rest.1))
        | inr skip ↦ rw skip (dispatch_rows-bound (suc batch_size) rows)
      ]

claimed-send_row :
    (now : ℕ) (row : EventRow) (error : Option String)
    → is_claimed (send_row now row error).dispatch_status ≡ false
unfolding send_row mark_claim_failed
claimed-send_row now row none = refl
claimed-send_row now row (some e) = ground arith

repair_stale_claims-Consistent :
    (now : ℕ) (later : ℕ → ℕ) (lease : ℕ) (rows : List EventRow)
    → All Consistent rows
    → All Consistent (repair_stale_claims now later lease rows)
unfolding repair_stale_claims
repair_stale_claims-Consistent now later lease [] h = tt
repair_stale_claims-Consistent now later lease (row ∷ rows) h = (
  repair_row-Consistent now (later row.id) lease row h.0,
  repair_stale_claims-Consistent now later lease rows h.1,
)

repair_row-Left :
    (now later lease : ℕ) (rows : List EventRow) (row : EventRow)
    → Mem row rows
    → Left now lease rows (repair_row now later lease row)
unfolding repair_row
repair_row-Left now later lease rows row mem = elim (Bool-cases (is_stale now lease row)) [
  | inl old ↦ rw old (inl refl)
  | inr fresh ↦ rw fresh (inr (fresh, mem))
]

repair_stale_claims-Left :
    (now : ℕ) (later : ℕ → ℕ) (lease : ℕ) (all rows : List EventRow)
    → ((row : EventRow) → Mem row rows → Mem row all)
    → All (Left now lease all) (repair_stale_claims now later lease rows)
unfolding repair_stale_claims
repair_stale_claims-Left now later lease all [] sub = tt
repair_stale_claims-Left now later lease all (row ∷ rows) sub = (
  repair_row-Left now (later row.id) lease all row (sub row mem-cons_self),
  repair_stale_claims-Left now later lease all rows (λ r mem. sub r (mem-cons_of_mem row mem)),
)

-- The rows of each table that exists are consistent.
abbrev pub AllConsistent : EventTables → Type 0
AllConsistent tables =
    OnSome (All Consistent) tables.order_events
    × OnSome (All Consistent) tables.route_plan_events
    × OnSome (All Consistent) tables.app_events

target-Consistent :
    (run : Run) (target : DispatchTarget) (table : Option (List EventRow))
    → OnSome (All Consistent) table
    → OnSome (All Consistent) (dispatch_target run target (repair_target run target table)).0
unfolding dispatch_target
target-Consistent run target none h = tt
target-Consistent run target (some rows) h =
    dispatch_rows-All (run.claims_at target) (run.refused_at target) run.dispatcher_id
      (run.unlocked target) (run.enqueue target) Consistent run.batch_size
      (repair_stale_claims run.threshold (run.repaired_at target) run.lease_seconds rows)
      (λ row error.
        send_row-Consistent (run.refused_at target row.id)
          (claim_row (run.claims_at target) run.dispatcher_id row) error)
      (repair_stale_claims-Consistent run.threshold (run.repaired_at target) run.lease_seconds rows
        h)

-- A run of the dispatcher keeps, in each of the event tables that exist, owner and time of a claim
-- on exactly the claimed rows.
pub dispatch_pending_events-Consistent :
    (run : Run) (tables : EventTables)
    → AllConsistent tables
    → AllConsistent (dispatch_pending_events run tables).tables
unfolding dispatch_pending_events repair_tables
dispatch_pending_events-Consistent run tables h = (
  target-Consistent run order_target tables.order_events h.0,
  target-Consistent run route_plan_target tables.route_plan_events h.1,
  target-Consistent run app_target tables.app_events h.2,
)

-- How a run leaves one table, and the ids that it has claimed of it.
abbrev pub Handled :
    Run → DispatchTarget → Option (List EventRow) → Option (List EventRow) → List ℕ → Type 0
Handled run target none after ids = (after ≡ none) × (ids ≡ [])
Handled run target (some rows) none ids = ⊥
Handled run target (some rows) (some after) ids =
    All (Left run.threshold run.lease_seconds rows) after
    × (length ids ≤ run.batch_size)
    × All (λ i. run.unlocked target i ≡ true) ids

target-Handled :
    (run : Run) (target : DispatchTarget) (table : Option (List EventRow))
    → let result = dispatch_target run target (repair_target run target table) in
      Handled run target table result.0 result.1
unfolding dispatch_target
target-Handled run target none = (refl, refl)
target-Handled run target (some rows) =
    let lease = run.lease_seconds in
    let repaired = repair_stale_claims run.threshold (run.repaired_at target) lease rows in
    let bound =
      dispatch_rows-bound (run.claims_at target) (run.refused_at target) run.dispatcher_id
        (run.unlocked target) (run.enqueue target) run.batch_size repaired in
    (
      dispatch_rows-All (run.claims_at target) (run.refused_at target) run.dispatcher_id
          (run.unlocked target) (run.enqueue target) (Left run.threshold lease rows) run.batch_size
          repaired
          (λ row error. inl (
            claimed-send_row (run.refused_at target row.id)
              (claim_row (run.claims_at target) run.dispatcher_id row) error))
          (repair_stale_claims-Left run.threshold (run.repaired_at target) lease rows rows
            (λ r mem. mem)),
      bound.0,
      bound.1,
    )

-- What a table may add to the count.
abbrev pub most : Run → Option (List EventRow) → ℕ
most run none = 0
most run (some rows) = run.batch_size

Handled-most :
    (run : Run) (target : DispatchTarget) (table after : Option (List EventRow)) (ids : List ℕ)
    → Handled run target table after ids
    → length ids ≤ most run table
Handled-most run target none after ids h = rw h.1 (omega arith)
Handled-most run target (some rows) none ids h = absurd h
Handled-most run target (some rows) (some after) ids h = h.1

-- After a run, a row of an event table that is claimed stood in that table just so before, and its
-- lease has not run out: the run leaves no claim of its own. From each table that exists the run
-- claims at most `batch_size` events, and none whose row another transaction has locked; it leaves a
-- table that does not exist alone. The count that it returns is at most `batch_size` for each table
-- that exists.
pub dispatch_pending_events-claims :
    (run : Run) (tables : EventTables)
    → let outcome = dispatch_pending_events run tables in
      Handled run order_target tables.order_events outcome.tables.order_events
        outcome.claimed_orders
      × Handled run route_plan_target tables.route_plan_events outcome.tables.route_plan_events
          outcome.claimed_route_plans
      × Handled run app_target tables.app_events outcome.tables.app_events outcome.claimed_apps
      × (outcome.claimed_count
          ≤ most run tables.order_events
            + most run tables.route_plan_events
            + most run tables.app_events)
unfolding dispatch_pending_events repair_tables
dispatch_pending_events-claims run tables =
    let orders = target-Handled run order_target tables.order_events in
    let route_plans = target-Handled run route_plan_target tables.route_plan_events in
    let apps = target-Handled run app_target tables.app_events in
    (
      orders,
      route_plans,
      apps,
      omega (
        arith,
        Handled-most run order_target tables.order_events _ _ orders,
        Handled-most run route_plan_target tables.route_plan_events _ _ route_plans,
        Handled-most run app_target tables.app_events _ _ apps,
      ),
    )
