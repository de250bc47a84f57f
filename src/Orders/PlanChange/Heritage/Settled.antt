-- ===== src/Orders/PlanChange/Heritage/Settled.antt =====
-- The tables after the states have been handed on.
use next_mark_backend_v.Prelude.{
  ℕ, ◌≡◌, refl, ap, ◌∙◌, sym, subst, inl, inr, Bool, true, false, Option, none, some, List, [], ◌∷◌,
  ◌==◌, Bool-cases, if◌then◌else◌,
}
use next_mark_backend_v.Prelude.Rows.{OnSome}
use next_mark_backend_v.Transitions.Model.{OrderRow, RouteGroup, RoutePlan, Db, Names}
use next_mark_backend_v.Transitions.Counts.{
  update_group, with_counts, recompute_route_group_order_counts,
}
use next_mark_backend_v.Transitions.GroupState.{
  apply_route_group_state, derive_route_group_state, maybe_sync_route_group_state,
}
use next_mark_backend_v.Transitions.Ids.{id_is}
use next_mark_backend_v.Transitions.PlanState.{derive_plan_state_from_groups}
use next_mark_backend_v.Transitions.Cascade.{find_group, find_plan, contains, sync_plan, sync_plans}
use next_mark_backend_v.Transitions.Cascade.Synced.{sync_plans-IsSynced}
use next_mark_backend_v.Transitions.Cascade.Groups.{
  Derived, written, find_group-update_group, resync, resync-id, resync-Derived, with_counts-id,
}
use next_mark_backend_v.Orders.PlanChange.Heritage.{
  Details, inherit_states, recount_plans, recount_groups, auto_complete_plans, sync_group_states,
  apply_move_state_heritage,
}

-- The counters of a group are those of its orders.
abbrev pub IsCounted : Names → List OrderRow → RouteGroup → Type 0
IsCounted names orders g = with_counts names orders g ≡ g

module _ (P : RouteGroup → Type 0) (f : RouteGroup → RouteGroup)
    (keeps : (g : RouteGroup) → (f g).id ≡ g.id) where
  written-kept :
      (b : Bool) (o : Option RouteGroup)
      → ((g : RouteGroup) → P g → P (f g))
      → OnSome P o
      → OnSome P (written b f o)
  written-kept b none step h = tt
  written-kept true (some g) step h = step g h
  written-kept false (some g) step h = h

  update_group-kept :
      (i j : ℕ) (gs : List RouteGroup)
      → ((g : RouteGroup) → P g → P (f g))
      → OnSome P (find_group i gs)
      → OnSome P (find_group i (update_group j f gs))
  update_group-kept i j gs step h =
      subst (OnSome P) (sym (find_group-update_group i j f keeps gs))
        (written-kept (j == i) (find_group i gs) step h)

  written-made :
      (o : Option RouteGroup) → ((g : RouteGroup) → P (f g)) → OnSome P (written true f o)
  written-made none step = tt
  written-made (some g) step = step g

  update_group-made :
      (i j : ℕ) (gs : List RouteGroup)
      → (j == i) ≡ true
      → ((g : RouteGroup) → P (f g))
      → OnSome P (find_group i (update_group j f gs))
  update_group-made i j gs same step =
      subst (OnSome P) (sym (find_group-update_group i j f keeps gs)) (
        subst (λ b. OnSome P (written b f (find_group i gs))) (sym same)
          (written-made (find_group i gs) step))

orders-recount_groups :
    (names : Names) (is : List ℕ) (db : Db) → (recount_groups names is db).orders ≡ db.orders
unfolding recount_groups recompute_route_group_order_counts
orders-recount_groups names [] db = refl
orders-recount_groups names (i ∷ is) db = orders-recount_groups names is _

IsCounted-with_counts :
    (names : Names) (orders : List OrderRow) (g : RouteGroup)
    → IsCounted names orders (with_counts names orders g)
unfolding with_counts
IsCounted-with_counts names orders g = refl

recount_groups-kept :
    (names : Names) (i : ℕ) (is : List ℕ) (db : Db)
    → OnSome (IsCounted names db.orders) (find_group i db.groups)
    → OnSome (IsCounted names db.orders) (find_group i (recount_groups names is db).groups)
unfolding recount_groups recompute_route_group_order_counts
recount_groups-kept names i [] db h = h
recount_groups-kept names i (j ∷ is) db h =
    recount_groups-kept names i is (recompute_route_group_order_counts names j db) (
      update_group-kept (IsCounted names db.orders) (with_counts names db.orders)
        (with_counts-id names db.orders) i j db.groups
        (λ g _. IsCounted-with_counts names db.orders g) h)

recount_groups-made :
    (names : Names) (i : ℕ) (is : List ℕ) (db : Db)
    → contains i is ≡ true
    → OnSome (IsCounted names db.orders) (find_group i (recount_groups names is db).groups)
unfolding recount_groups recompute_route_group_order_counts contains
recount_groups-made names i [] db h = absurd (cc)
recount_groups-made names i (j ∷ is) db h = elim (Bool-cases (j == i)) [
  | inl same ↦ recount_groups-kept names i is (recompute_route_group_order_counts names j db) (
      update_group-made (IsCounted names db.orders) (with_counts names db.orders)
        (with_counts-id names db.orders) i j db.groups same
        (λ g. IsCounted-with_counts names db.orders g))
  | inr other ↦
      recount_groups-made names i is (recompute_route_group_order_counts names j db) (rw other at h)
]

-- Completing the plans leaves the groups and the orders as they are, and so do the last two loops
-- with the orders, and the last one with the groups.
auto_complete_plans-rest :
    (is : List ℕ) (db : Db)
    → ((auto_complete_plans is db).groups ≡ db.groups)
      × ((auto_complete_plans is db).orders ≡ db.orders)
unfolding auto_complete_plans
auto_complete_plans-rest [] db = (refl, refl)
auto_complete_plans-rest (i ∷ is) db = auto_complete_plans-rest is _

orders-sync_group_states : (is : List ℕ) (db : Db) → (sync_group_states is db).orders ≡ db.orders
unfolding sync_group_states
orders-sync_group_states [] db = refl
orders-sync_group_states (i ∷ is) db = orders-sync_group_states is _

sync_plans-rest :
    (is : List ℕ) (db : Db)
    → ((sync_plans is db).groups ≡ db.groups) × ((sync_plans is db).orders ≡ db.orders)
unfolding sync_plans sync_plan
sync_plans-rest [] db = (refl, refl)
sync_plans-rest (i ∷ is) db = sync_plans-rest is _

abbrev Both : Names → List OrderRow → RouteGroup → Type 0
Both names orders g = Derived g × IsCounted names orders g

resync-IsCounted :
    (names : Names) (orders : List OrderRow) (g : RouteGroup)
    → IsCounted names orders g
    → IsCounted names orders (resync g)
unfolding maybe_sync_route_group_state apply_route_group_state with_counts
resync-IsCounted names orders g h =
    let s = derive_route_group_state g [] in
    elim (id_is g.state_id s)
      as (λ b.
        let r : RouteGroup × Bool =
          if b then (g, false) else (record g { state_id = some s }, true) in
        IsCounted names orders r.0) [
          | true ↦ h
          | false ↦ ap {A = RouteGroup} {B = RouteGroup} (λ x. record x { state_id = some s }) h
        ]

sync_group_states-kept :
    (P : RouteGroup → Type 0) (i : ℕ) (is : List ℕ) (db : Db)
    → ((g : RouteGroup) → P g → P (resync g))
    → OnSome P (find_group i db.groups)
    → OnSome P (find_group i (sync_group_states is db).groups)
unfolding sync_group_states
sync_group_states-kept P i [] db step h = h
sync_group_states-kept P i (j ∷ is) db step h =
    sync_group_states-kept P i is _ step (update_group-kept P resync resync-id i j db.groups step h)

sync_group_states-made :
    (i : ℕ) (is : List ℕ) (db : Db)
    → contains i is ≡ true
    → OnSome Derived (find_group i (sync_group_states is db).groups)
unfolding sync_group_states contains
sync_group_states-made i [] db h = absurd (cc)
sync_group_states-made i (j ∷ is) db h = elim (Bool-cases (j == i)) [
  | inl same ↦
      sync_group_states-kept Derived i is _ (λ g _. resync-Derived g)
        (update_group-made Derived resync resync-id i j db.groups same resync-Derived)
  | inr other ↦ sync_group_states-made i is _ (rw other at h)
]

-- The groups of the result, for a group that is affected.
settled-groups :
    (names : Names) (plan_ids group_ids : List ℕ) (db : Db) (i : ℕ)
    → contains i group_ids ≡ true
    → let counted = recount_groups names group_ids db in
      let final =
        sync_plans plan_ids (sync_group_states group_ids (auto_complete_plans plan_ids counted)) in
      OnSome Derived (find_group i final.groups)
      × OnSome (IsCounted names final.orders) (find_group i final.groups)
settled-groups names plan_ids group_ids db i h =
    let counted = recount_groups names group_ids db in
    let completed = auto_complete_plans plan_ids counted in
    let synced = sync_group_states group_ids completed in
    let rest = sync_plans-rest plan_ids synced in
    let same_orders : (sync_plans plan_ids synced).orders ≡ db.orders =
      rest.1
      ∙ orders-sync_group_states group_ids completed
      ∙ (auto_complete_plans-rest plan_ids counted).1
      ∙ orders-recount_groups names group_ids db in
    let made : OnSome (IsCounted names db.orders) (find_group i completed.groups) =
      subst (λ gs. OnSome (IsCounted names db.orders) (find_group i gs))
        (sym (auto_complete_plans-rest plan_ids counted).0)
        (recount_groups-made names i group_ids db h) in
    rw (rest.0, same_orders)
      (
        sync_group_states-made i group_ids completed h,
        sync_group_states-kept (IsCounted names db.orders) i group_ids completed
            (resync-IsCounted names db.orders) made,
      )

-- After orders have been moved and the states handed on, an affected group has the counters of its
-- orders, as they are then, and the state that these counters derive; and a plan that is recomputed
-- has the state that its groups, as they are then, derive for it, whatever state the rules for the
-- moved orders wrote to it before.
pub heritage-settled :
    (names : Names) (details : Details) (new_plan_id : ℕ) (order_ids plan_ids group_ids : List ℕ)
    (db : Db) (i j : ℕ) (g : RouteGroup) (p : RoutePlan)
    → let after =
        (apply_move_state_heritage names details new_plan_id order_ids plan_ids group_ids db).0 in
      contains i group_ids ≡ true
      → find_group i after.groups ≡ some g
      → contains j plan_ids ≡ true
      → find_plan j after.plans ≡ some p
      → (with_counts names after.orders g ≡ g)
        × (g.state_id ≡ some (derive_route_group_state g []))
        × (p.state_id ≡ some (derive_plan_state_from_groups j after.groups))
unfolding apply_move_state_heritage
heritage-settled names details new_plan_id order_ids plan_ids group_ids db i j g p hi eg hj ep =
    let start =
      recount_plans names plan_ids (inherit_states details new_plan_id order_ids (db, [])).0 in
    let groups = settled-groups names plan_ids group_ids start i hi in
    let after =
      (apply_move_state_heritage names details new_plan_id order_ids plan_ids group_ids db).0 in
    (
      subst (OnSome (IsCounted names after.orders)) eg groups.1,
      subst (OnSome Derived) eg groups.0,
      (sync_plans-IsSynced j plan_ids
            (sync_group_states group_ids
              (auto_complete_plans plan_ids (recount_groups names group_ids start)))
            hj).at_plan
          p ep,
    )
