-- ===== src/Transitions/Cascade/Synced.antt =====
-- What holds of the tables after the cascade.
use next_mark_backend_v.Prelude.{
  ℕ, ◌≡◌, refl, sym, ◌∙◌, Bool, true, false, ◌⊎◌, inl, inr, Option, none, some, List, [], ◌∷◌, ◌==◌,
  arith, Bool-cases,
}
use next_mark_backend_v.Transitions.PlanState.{
  apply_plan_state, derive_plan_state_from_groups, maybe_sync_plan_state_from_groups,
}
use next_mark_backend_v.Transitions.Model.{OrderRow, RouteGroup, RoutePlan, Db, Names}
use next_mark_backend_v.Transitions.Cascade.{
  find_plan, update_plan, contains, sync_plan, sync_plans, affected_by,
  recompute_and_auto_complete_plans, sync_groups, complete_plans,
}

-- Every row of plan `i` has the state that the groups derive for it.
pub record IsSynced (i : ℕ) (db : Db) : Type 0 where
  pub at_plan :
      (p : RoutePlan)
      → find_plan i db.plans ≡ some p
      → p.state_id ≡ some (derive_plan_state_from_groups i db.groups)

pub groups-sync_plan : (i : ℕ) (db : Db) → (sync_plan i db).groups ≡ db.groups
unfolding sync_plan
groups-sync_plan i db = refl

find_plan-id : (i : ℕ) (ps : List RoutePlan) (p : RoutePlan) → find_plan i ps ≡ some p → p.id ≡ i
unfolding find_plan
find_plan-id i [] p e = cc
find_plan-id i (q ∷ ps) p e = ground (arith, find_plan-id i ps p)

-- A write to plan `j` that keeps ids, seen at plan `i`.
abbrev written : Bool → (RoutePlan → RoutePlan) → Option RoutePlan → Option RoutePlan
written b f none = none
written true f (some p) = some (f p)
written false f (some p) = some p

find_plan-update_plan :
    (i j : ℕ) (f : RoutePlan → RoutePlan)
    → ((p : RoutePlan) → (f p).id ≡ p.id)
    → (ps : List RoutePlan) → find_plan i (update_plan j f ps) ≡ written (j == i) f (find_plan i ps)
unfolding find_plan update_plan
find_plan-update_plan i j f keeps [] = refl
find_plan-update_plan i j f keeps (p ∷ ps) =
    ground (arith, keeps p, find_plan-update_plan i j f keeps ps)

apply_plan_state-sets : (p : RoutePlan) (s : ℕ) → (apply_plan_state p s).0.state_id ≡ some s
unfolding apply_plan_state
apply_plan_state-sets p s = ground arith

apply_plan_state-id : (p : RoutePlan) (s : ℕ) → (apply_plan_state p s).0.id ≡ p.id
unfolding apply_plan_state
apply_plan_state-id p s = ground arith

abbrev resync : List RouteGroup → RoutePlan → RoutePlan
resync groups p = (maybe_sync_plan_state_from_groups groups p).0

resync-id : (groups : List RouteGroup) (p : RoutePlan) → (resync groups p).id ≡ p.id
unfolding maybe_sync_plan_state_from_groups
resync-id groups p = apply_plan_state-id p _

resync-state :
    (groups : List RouteGroup) (p : RoutePlan)
    → (resync groups p).state_id ≡ some (derive_plan_state_from_groups p.id groups)
unfolding maybe_sync_plan_state_from_groups
resync-state groups p = apply_plan_state-sets p _

-- One round of the last loop at plan `j`, seen at plan `i`.
find_plan-sync_plan :
    (i j : ℕ) (db : Db)
    → find_plan i (sync_plan j db).plans
      ≡ written (j == i) (resync db.groups) (find_plan i db.plans)
unfolding sync_plan
find_plan-sync_plan i j db =
    find_plan-update_plan i j (resync db.groups) (resync-id db.groups) db.plans

written_cases :
    (b : Bool) (f : RoutePlan → RoutePlan) (o : Option RoutePlan) (q : RoutePlan)
    → written b f o ≡ some q
    → (p : RoutePlan) × (o ≡ some p) × ((b ≡ true) × (q ≡ f p) ⊎ (b ≡ false) × (q ≡ p))
written_cases b f none q e = cc
written_cases true f (some p) q e = (p, refl, inl (refl, cc))
written_cases false f (some p) q e = (p, refl, inr (refl, cc))

sync_plan-IsSynced : (i j : ℕ) (db : Db) → (j ≡ i) ⊎ IsSynced i db → IsSynced i (sync_plan j db)
sync_plan-IsSynced i j db h = record {
  at_plan = λ q e.
      let (p, found, how) =
        written_cases (j == i) (resync db.groups) (find_plan i db.plans) q
          (sym (find_plan-sync_plan i j db) ∙ e) in
      rw groups-sync_plan (elim how [
        | inl (at, written_now) ↦
            rw written_now (rw (resync-state db.groups p) (rw (find_plan-id i db.plans p found)))
        | inr (other, kept) ↦
            rw kept
              (elim h [ inl same ↦ absurd (ground arith) | inr synced ↦ synced.at_plan p found ])
      ]);
}

sync_plans-keeps : (i : ℕ) (js : List ℕ) (db : Db) → IsSynced i db → IsSynced i (sync_plans js db)
unfolding sync_plans
sync_plans-keeps i [] db h = h
sync_plans-keeps i (j ∷ js) db h =
    sync_plans-keeps i js (sync_plan j db) (sync_plan-IsSynced i j db (inr h))

pub sync_plans-IsSynced :
    (i : ℕ) (js : List ℕ) (db : Db) → contains i js ≡ true → IsSynced i (sync_plans js db)
unfolding sync_plans contains
sync_plans-IsSynced i [] db h = cc
sync_plans-IsSynced i (j ∷ js) db h = elim (Bool-cases (j == i)) [
  | inl same ↦
      sync_plans-keeps i js (sync_plan j db) (sync_plan-IsSynced i j db (inl (ground arith)))
  | inr other ↦ sync_plans-IsSynced i js (sync_plan j db) (rw other at h)
]

cascade-IsSynced :
    (names : Names) (changed : List OrderRow) (db : Db) (i : ℕ)
    → contains i (affected_by db changed).plans ≡ true
    → IsSynced i (recompute_and_auto_complete_plans names changed db)
unfolding recompute_and_auto_complete_plans
cascade-IsSynced names changed db i h =
    sync_plans-IsSynced i (affected_by db changed).plans
      (sync_groups names (affected_by db changed).groups
        (complete_plans names (affected_by db changed).plans db))
      h

-- After the cascade an affected plan has exactly the state that its route groups, as the cascade
-- leaves them, derive for it; whatever state it was in and whatever completed before.
pub cascade-plan :
    (names : Names) (changed : List OrderRow) (db : Db) (i : ℕ) (p : RoutePlan)
    → contains i (affected_by db changed).plans ≡ true
    → find_plan i (recompute_and_auto_complete_plans names changed db).plans ≡ some p
    → p.state_id
      ≡ some (
          derive_plan_state_from_groups i
            (recompute_and_auto_complete_plans names changed db).groups)
cascade-plan names changed db i p h e = (cascade-IsSynced names changed db i h).at_plan p e
