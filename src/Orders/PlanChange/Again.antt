-- ===== src/Orders/PlanChange/Again.antt =====
-- A move that is asked for again.
use next_mark_backend_v.Prelude.{
  arith, ℕ, ◌≡◌, refl, inl, inr, subst, Bool, true, ◌&&◌, ◌||◌, not, Option, none, some, List, [],
  ◌∷◌, map, ◌==◌, ==_iff, Bool-cases, str_eq,
}
use next_mark_backend_v.Prelude.Sorting.{All, All-map}
use next_mark_backend_v.Prelude.Rows.{any, is_some, OnSome}
use next_mark_backend_v.Result.{
  Result, ok, err, validation_failed, OnOk, OnOk->>=, OnOk->>=_of, OnOk-guard, OnOk-if,
}
use next_mark_backend_v.Team.{Context, ensure_instance_in_team}
use next_mark_backend_v.Transitions.Ids.{id_is, same_id}
use next_mark_backend_v.Transitions.Model.{OrderRow}
use next_mark_backend_v.Orders.PlanChange.Destination.{
  Group, ZoneAssignment, Changed, to_group, load_route_groups_for_plan,
  resolve_destination_route_group_ids, destination_of,
}
use next_mark_backend_v.Orders.PlanChange.{
  RoutePlan, OrderIds, Tables, Moved, normalize_order_ids, find_route_plan, plan_of_team,
  resolve_plan_instance, resolve_orders_for_update, is_settled, changed_orders, move_order,
  destinations_for, place_orders, assign_ids, assign_orders_to_plan, load_route_plans_by_id,
  old_plan_ids,
}

-- Whether the destinations give an order the group asked for, if one is.
abbrev suits : Option ℕ → List (ℕ × ℕ) → Changed → Bool
suits destination destinations c =
    not (is_some destination) || same_id (destination_of c.order.id destinations) destination

abbrev Suited : Option ℕ → List Changed → List (ℕ × ℕ) → Type 0
Suited destination changed destinations = All (λ c. suits destination destinations c ≡ true) changed

free_Suited : (changed : List Changed) (ds : List (ℕ × ℕ)) → Suited none changed ds
free_Suited [] ds = tt
free_Suited (c ∷ changed) ds = (refl, free_Suited changed ds)

cons_suits :
    (i : ℕ) (d : ℕ) (ds : List (ℕ × ℕ)) (c : Changed)
    → suits (some i) ds c ≡ true
    → suits (some i) ((d, i) ∷ ds) c ≡ true
unfolding destination_of
cons_suits i d ds c h = elim (Bool-cases (d == c.order.id)) [
  | inl same ↦ rw same (ground arith)
  | inr other ↦ rw other h
]

map-to_group-Suited :
    (i : ℕ) (changed : List Changed) → Suited (some i) changed (map (to_group i) changed)
unfolding destination_of
map-to_group-Suited i [] = tt
map-to_group-Suited i (c ∷ changed) =
    let own : (c.order.id == c.order.id) ≡ true = ground arith in
    (
      rw own (ground arith),
      All-map changed (λ x h. cons_suits i c.order.id (map (to_group i) changed) x h)
          (map-to_group-Suited i changed),
    )

any_result :
    (changed : List Changed) (call : Result (List (ℕ × ℕ))) → OnOk (Suited none changed) call
any_result changed (err _) = tt
any_result changed (ok ds) = free_Suited changed ds

resolve-Suited :
    (changed : List Changed) (zones : List ZoneAssignment) (groups : List Group)
    (destination : Option ℕ) (p : ℕ)
    → OnOk
        (Suited destination changed)
        (resolve_destination_route_group_ids changed zones groups destination p)
unfolding resolve_destination_route_group_ids
resolve-Suited changed zones groups (some i) p =
    OnOk-guard (Suited (some i) changed) (any (λ g. g.id == i) groups) validation_failed _
      (λ _. map-to_group-Suited i changed)
resolve-Suited changed zones groups none p = any_result changed _

destinations_for-Suited :
    (ctx : Context) (tables : Tables) (plan : RoutePlan) (destination : Option ℕ)
    (changed : List Changed)
    → OnOk (Suited destination changed) (destinations_for ctx tables plan destination changed)
destinations_for-Suited ctx tables plan none changed = any_result changed _
destinations_for-Suited ctx tables plan (some i) changed =
    OnOk-if (Suited (some i) changed) (str_eq plan.plan_type "local_delivery") _ _
      (OnOk->>= (Suited (some i) changed) (load_route_groups_for_plan ctx plan.id tables.groups) _
        (λ groups _. resolve-Suited changed tables.zones groups (some i) plan.id))
      tt

find_route_plan-id :
    (p : ℕ) (plans : List RoutePlan) → OnSome (λ plan. plan.id ≡ p) (find_route_plan p plans)
unfolding find_route_plan
find_route_plan-id p [] = tt
find_route_plan-id p (plan ∷ plans) = elim (Bool-cases (plan.id == p)) [
  | inl same ↦ rw same ((==_iff plan.id p).0 same)
  | inr other ↦ rw other (find_route_plan-id p plans)
]

plan_of_team-id :
    (ctx : Context) (p : ℕ) (o : Option RoutePlan)
    → OnSome (λ plan. plan.id ≡ p) o
    → OnOk (λ plan. plan.id ≡ p) (plan_of_team ctx o)
unfolding plan_of_team
plan_of_team-id ctx p none h = tt
plan_of_team-id ctx p (some plan) h =
    OnOk-if (λ x. x.id ≡ p) ctx.check_team_id _ _
      (OnOk->>= (λ x. x.id ≡ p) (ensure_instance_in_team plan.team_id ctx) _ (λ _ _. h)) h

abbrev pub moved_order : Moved → OrderRow
moved_order m = m.order

own_settled :
    (p : ℕ) (destination : Option ℕ) (b : Bool) → b ≡ true → (id_is (some p) p && b) ≡ true
own_settled p destination b h = ground arith

moved-settled :
    (plan : RoutePlan) (old_plans : List RoutePlan) (ds : List (ℕ × ℕ)) (destination : Option ℕ)
    (changed : List Changed)
    → Suited destination changed ds
    → changed_orders plan.id destination
        (map moved_order (map (move_order plan old_plans ds) changed))
      ≡ []
unfolding changed_orders is_settled move_order
moved-settled plan old_plans ds destination [] h = refl
moved-settled plan old_plans ds destination (c ∷ changed) h =
    let settled : is_settled plan.id destination (move_order plan old_plans ds c).order ≡ true =
      own_settled plan.id destination (suits destination ds c) h.0 in
    rw settled (moved-settled plan old_plans ds destination changed h.1)

place_orders-settled :
    (ctx : Context) (tables : Tables) (plan : RoutePlan) (destination : Option ℕ)
    (changed : List Changed)
    → OnOk
        (λ moved. changed_orders plan.id destination (map moved_order moved) ≡ [])
        (place_orders ctx tables plan destination changed)
unfolding place_orders changed_orders
place_orders-settled ctx tables plan destination [] = refl
place_orders-settled ctx tables plan destination (c ∷ changed) =
    OnOk->>=_of (Suited destination (c ∷ changed))
      (λ moved. changed_orders plan.id destination (map moved_order moved) ≡ [])
      (destinations_for ctx tables plan destination (c ∷ changed)) _
      (destinations_for-Suited ctx tables plan destination (c ∷ changed))
      (λ ds suited.
        moved-settled plan (load_route_plans_by_id ctx (old_plan_ids (c ∷ changed)) tables.plans) ds
          destination (c ∷ changed) suited)

assign_ids-settled :
    (ctx : Context) (tables : Tables) (ids : List ℕ) (p : ℕ) (destination : Option ℕ)
    → OnOk
        (λ moved. changed_orders p destination (map moved_order moved) ≡ [])
        (assign_ids ctx tables ids (some p) destination)
unfolding assign_ids changed_orders resolve_plan_instance
assign_ids-settled ctx tables [] p destination = refl
assign_ids-settled ctx tables (i ∷ ids) p destination =
    let P : List Moved → Type 0 =
      λ moved. changed_orders p destination (map moved_order moved) ≡ [] in
    OnOk->>=_of (λ plan. plan.id ≡ p) P (plan_of_team ctx (find_route_plan p tables.plans)) _
      (plan_of_team-id ctx p (find_route_plan p tables.plans) (find_route_plan-id p tables.plans))
      (λ plan same.
        OnOk->>= P (resolve_orders_for_update ctx tables.orders (i ∷ ids)) _ (λ orders _.
          subst
            (λ k.
              OnOk (λ moved. changed_orders k destination (map moved_order moved) ≡ [])
                (place_orders ctx tables plan destination
                  (changed_orders plan.id destination orders)))
            same
            (place_orders-settled ctx tables plan destination
              (changed_orders plan.id destination orders))))

-- A move that has been made changes nothing when it is asked for again: once a request has moved
-- orders into a plan, and into a group where it names one, none of the orders it moved is one that the
-- same request would move.
pub assign_orders_to_plan-again :
    (ctx : Context) (tables : Tables) (order_ids : OrderIds) (p : ℕ) (destination : Option ℕ)
    → OnOk
        (λ moved. changed_orders p destination (map moved_order moved) ≡ [])
        (assign_orders_to_plan ctx tables order_ids (some p) destination)
unfolding assign_orders_to_plan
assign_orders_to_plan-again ctx tables order_ids p destination =
    OnOk->>= (λ moved. changed_orders p destination (map moved_order moved) ≡ [])
      (normalize_order_ids order_ids) _ (λ ids _. assign_ids-settled ctx tables ids p destination)
