-- ===== src/Transitions/Cascade.antt =====
-- `_recompute_and_auto_complete_plans` of
-- Delivery_app_BK/services/commands/order/order_states/update_orders_state.py: what a change of
-- order states does to the route groups and plans of those orders.
pub mod Synced
pub mod Groups
pub mod Orders
use next_mark_backend_v.Prelude.{
  ℕ, String, Bool, true, false, ◌||◌, Option, none, some, List, [], ◌∷◌, ◌++◌, map, ◌==◌,
  if◌then◌else◌,
}
use next_mark_backend_v.Transitions.Ids.{id_is}
use next_mark_backend_v.Transitions.Counts.{
  groups_of, update_group, recompute_route_group_order_counts, recompute_plan_order_counts,
}
use next_mark_backend_v.Transitions.GroupState.{maybe_sync_route_group_state}
use next_mark_backend_v.Transitions.PlanState.{
  head, selected_or, maybe_auto_complete_plan, maybe_sync_plan_state_from_groups,
}
use next_mark_backend_v.Transitions.Model.{
  OrderRow, RouteSolution, RouteGroup, RoutePlan, Db, Names,
}

unfoldable pub find_plan : ℕ → List RoutePlan → Option RoutePlan
find_plan i [] = none
find_plan i (p ∷ ps) = if p.id == i then some p else find_plan i ps

unfoldable pub find_group : ℕ → List RouteGroup → Option RouteGroup
find_group i [] = none
find_group i (g ∷ gs) = if g.id == i then some g else find_group i gs

unfoldable pub update_plan : ℕ → (RoutePlan → RoutePlan) → List RoutePlan → List RoutePlan
update_plan i f [] = []
update_plan i f (p ∷ ps) = (if p.id == i then f p else p) ∷ update_plan i f ps

-- `d[i] = row` for a dictionary of rows by id: a known id keeps its place.
unfoldable pub remember : ℕ → List ℕ → List ℕ
remember i [] = i ∷ []
remember i (j ∷ js) = if j == i then j ∷ js else j ∷ remember i js

pub record Affected : Type 0 where
  pub plans : List ℕ
  pub groups : List ℕ
  pub unresolved : List ℕ

-- `order.route_plan`, an optional relationship.
unfoldable pub related {ℓ} : {A : Type ℓ} → Option ℕ → (ℕ → Option A) → Option A
related none find = none
related (some i) find = find i

-- `order.route_group`, or else the group of that id among the plan's groups.
unfoldable pub group_of_order : Db → OrderRow → Option RoutePlan → Option RouteGroup
unfolding related find_group groups_of
group_of_order db o plan = elim (related o.route_group_id (λ i. find_group i db.groups)) [
  | some g ↦ some g
  | none ↦ elim plan [
    | none ↦ none
    | some p ↦ related o.route_group_id (λ i. find_group i (groups_of p.id db.groups))
  ]
]

unfoldable pub note_plan : Option RoutePlan → Affected → Affected
unfolding remember
note_plan none a = a
note_plan (some p) a = record a { plans = remember p.id a.plans }

unfoldable pub note_group : Option RouteGroup → ℕ → Affected → Affected
unfolding remember
note_group none order_id a = record a { unresolved = a.unresolved ++ order_id ∷ [] }
note_group (some g) order_id a = record a { groups = remember g.id a.groups }

unfoldable pub collect : Db → List OrderRow → Affected → Affected
unfolding group_of_order note_plan note_group find_plan related
collect db [] a = a
collect db (o ∷ os) a =
    let plan = related o.route_plan_id (λ i. find_plan i db.plans) in
    collect db os (note_group (group_of_order db o plan) o.id (note_plan plan a))

unfoldable pub contains : ℕ → List ℕ → Bool
contains i [] = false
contains i (j ∷ js) = j == i || contains i js

-- The fallback query: groups by the route stops of the orders with no group of their own.
unfoldable pub resolve_by_stops : List (ℕ × ℕ) → Affected → Affected
unfolding contains remember
resolve_by_stops [] a = a
resolve_by_stops ((order_id, group_id) ∷ rows) a =
    resolve_by_stops rows (
      if contains order_id a.unresolved
      then record a { groups = remember group_id a.groups }
      else a)

-- The body of the loop over the affected plans: recount, then complete.
unfoldable pub complete_plan : Names → Db → Option RoutePlan → Db
unfolding update_plan recompute_plan_order_counts maybe_auto_complete_plan
complete_plan names db none = db
complete_plan names db (some plan) =
    let counted = recompute_plan_order_counts names plan db in
    record counted {
      plans =
          update_plan plan.id (λ p. (maybe_auto_complete_plan counted.groups p).0) counted.plans;
    }

unfoldable pub complete_plans : Names → List ℕ → Db → Db
unfolding find_plan complete_plan
complete_plans names [] db = db
complete_plans names (i ∷ is) db =
    complete_plans names is (complete_plan names db (find_plan i db.plans))

-- The body of the loop over the affected groups. A group with no route solution is not recounted.
unfoldable pub sync_group : Names → RouteGroup → Db → Db
unfolding selected_or recompute_route_group_order_counts maybe_sync_route_group_state update_group
sync_group names g db =
    let counted : Db = elim (selected_or (head g.route_solutions) g.route_solutions) [
      | none ↦ db
      | some rs ↦ recompute_route_group_order_counts names g.id db
    ] in
    record counted {
      groups = update_group g.id (λ h. (maybe_sync_route_group_state h []).0) counted.groups;
    }

unfoldable pub sync_found : Names → Db → Option RouteGroup → Db
unfolding sync_group
sync_found names db none = db
sync_found names db (some g) = sync_group names g db

unfoldable pub sync_groups : Names → List ℕ → Db → Db
unfolding sync_found find_group
sync_groups names [] db = db
sync_groups names (i ∷ is) db = sync_groups names is (sync_found names db (find_group i db.groups))

unfoldable pub sync_plan : ℕ → Db → Db
unfolding update_plan maybe_sync_plan_state_from_groups
sync_plan i db = record db {
  plans = update_plan i (λ p. (maybe_sync_plan_state_from_groups db.groups p).0) db.plans;
}

unfoldable pub sync_plans : List ℕ → Db → Db
unfolding sync_plan
sync_plans [] db = db
sync_plans (i ∷ is) db = sync_plans is (sync_plan i db)

unfoldable pub affected_by : Db → List OrderRow → Affected
unfolding collect resolve_by_stops
affected_by db changed =
    resolve_by_stops db.stop_groups
      (collect db changed (record { plans = []; groups = []; unresolved = [] }))

unfoldable pub recompute_and_auto_complete_plans : Names → List OrderRow → Db → Db
unfolding affected_by complete_plans sync_groups sync_plans
recompute_and_auto_complete_plans names changed db =
    let affected = affected_by db changed in
    sync_plans affected.plans
      (sync_groups names affected.groups (complete_plans names affected.plans db))
