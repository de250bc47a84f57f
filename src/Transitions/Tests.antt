-- ===== src/Transitions/Tests.antt =====
-- The theorems on states at concrete orders, groups and plans.
use next_mark_backend_v.Prelude.{ℕ, ◌≡◌, ◌≢◌, ◌≤◌, ◌↔◌, refl, true, none, some, [], ◌∷◌, arith}
use next_mark_backend_v.Prelude.Sorting.{All}
use next_mark_backend_v.Moment.{aware}
use next_mark_backend_v.Transitions.OrderStateId
use next_mark_backend_v.Transitions.PlanStateId
use next_mark_backend_v.Transitions.Moves.Settling.{
  Pair, move, Agrees, move-move-Agrees, move-eq-self_iff,
}
use next_mark_backend_v.Transitions.Model.{
  OrderRow, RouteGroup, RoutePlan, Db, order_state_seeds, cancelled_name, completed_name,
}
use next_mark_backend_v.Transitions.Counts.{
  with_counts, orders_of, groups_of, bump, joined_name, count_name, state_counts, total,
  update_group, recompute_route_group_order_counts, recompute_groups,
  recompute_local_delivery_counts, recompute_plan_order_counts,
}
use next_mark_backend_v.Transitions.Counts.Named.{HasKnownState}
use next_mark_backend_v.Transitions.Counts.Agreement.{derive-with_counts}
use next_mark_backend_v.Transitions.GroupState.{
  derive_route_group_state, derive_from_orders, derive_from_counts, maybe_sync_route_group_state,
  apply_route_group_state, all, select, is_set_of, all_match,
}
use next_mark_backend_v.Transitions.PlanState.{
  derive_plan_state_from_groups, state_set, sole_state, has_state,
  maybe_sync_plan_state_from_groups, maybe_auto_complete_plan, apply_plan_state,
  derive_auto_complete_state, get_selected_route_solution, selected_or, count_of,
}
use next_mark_backend_v.Transitions.PlanState.Derived.{derive_plan_state_from_groups_iff}
use next_mark_backend_v.Transitions.Cascade.{
  recompute_and_auto_complete_plans, affected_by, contains, find_plan, find_group, update_plan,
  remember, related, group_of_order, note_plan, note_group, collect, resolve_by_stops,
  complete_plan, complete_plans, sync_group, sync_found, sync_groups, sync_plan, sync_plans,
}
use next_mark_backend_v.Transitions.Cascade.Groups.{cascade-group}
use next_mark_backend_v.Transitions.Cascade.Synced.{cascade-plan}

abbrev moved_pair : Pair
moved_pair = record {
  order = record { id = 7; order_state_id = some OrderStateId.processing; reference_number = none };
  plan = record {
    id = 3;
    state_id = some PlanStateId.ready;
    label = none;
    end_date = some (aware 50);
  };
}

move-move-Agrees_example : Agrees (move 60 (move 60 moved_pair))
move-move-Agrees_example = move-move-Agrees 60 moved_pair

move-eq-self_iff_example : (move 60 moved_pair ≡ moved_pair) ↔ Agrees moved_pair
move-eq-self_iff_example = move-eq-self_iff 60 moved_pair

abbrev done_order : OrderRow
done_order = record {
  id = 1;
  team_id = some 9;
  order_notes = none;
  order_state_id = some OrderStateId.completed;
  route_plan_id = some 3;
  route_group_id = some 5;
}

abbrev cancelled_order : OrderRow
cancelled_order = record done_order { id = 2; order_state_id = some OrderStateId.cancelled }

abbrev group : RouteGroup
group = record {
  id = 5;
  route_plan_id = 3;
  state_id = some PlanStateId.opened;
  total_orders = none;
  order_state_counts = none;
  route_solutions = record { id = 8; is_selected = true } ∷ [];
}

known : (s : ℕ) (o : OrderRow) → o.order_state_id ≡ some s → 1 ≤ s → s ≤ 8 → HasKnownState o
known s o e low high = record { state = s; is_set = e; positive = low; bounded = high }

derive-with_counts_example :
    derive_route_group_state
      (with_counts order_state_seeds (done_order ∷ cancelled_order ∷ []) group)
      []
    ≡ derive_from_orders (orders_of group.id (done_order ∷ cancelled_order ∷ []))
unfolding orders_of
derive-with_counts_example = derive-with_counts group (done_order ∷ cancelled_order ∷ []) [] (
  known OrderStateId.completed done_order refl (omega arith) (omega arith),
  (known OrderStateId.cancelled cancelled_order refl (omega arith) (omega arith), tt),
)

abbrev ready_group : RouteGroup
ready_group = record group { state_id = some PlanStateId.ready }

derive_plan_state_from_groups_iff_example :
    (derive_plan_state_from_groups 3 (ready_group ∷ []) ≡ PlanStateId.ready) ↔ (
      (groups_of 3 (ready_group ∷ []) ≢ [])
      × All
          (λ (g : RouteGroup). g.state_id ≡ some PlanStateId.ready)
          (groups_of 3 (ready_group ∷ [])))
derive_plan_state_from_groups_iff_example =
    derive_plan_state_from_groups_iff 3 PlanStateId.ready (ready_group ∷ []) refl

abbrev db : Db
db = record {
  orders = done_order ∷ cancelled_order ∷ [];
  groups = group ∷ [];
  plans = record { id = 3; state_id = some PlanStateId.opened; plan_type = "local_delivery" } ∷ [];
  stop_groups = [];
}

abbrev completed_plan : RoutePlan
completed_plan = record {
  id = 3;
  state_id = some PlanStateId.completed;
  plan_type = "local_delivery";
}

cascade-plan_example :
    some PlanStateId.completed
    ≡ some (
        derive_plan_state_from_groups 3
          (recompute_and_auto_complete_plans order_state_seeds (done_order ∷ []) db).groups)
unfolding recompute_and_auto_complete_plans affected_by contains find_plan find_group update_plan
    remember related group_of_order note_plan note_group collect resolve_by_stops complete_plan
    complete_plans sync_group sync_found sync_groups sync_plan sync_plans with_counts orders_of
    groups_of bump joined_name count_name state_counts total update_group
    recompute_route_group_order_counts recompute_groups recompute_local_delivery_counts
    recompute_plan_order_counts maybe_sync_plan_state_from_groups maybe_auto_complete_plan
    apply_plan_state derive_auto_complete_state get_selected_route_solution selected_or count_of
    derive_plan_state_from_groups state_set sole_state has_state derive_route_group_state
    derive_from_orders derive_from_counts maybe_sync_route_group_state apply_route_group_state all
    select is_set_of all_match order_state_seeds
cascade-plan_example =
    cascade-plan order_state_seeds (done_order ∷ []) db 3 completed_plan refl refl

abbrev completed_group : RouteGroup
completed_group = record group {
  state_id = some PlanStateId.completed;
  total_orders = some 2;
  order_state_counts = some ((cancelled_name, 1) ∷ (completed_name, 1) ∷ []);
}

cascade-group_example :
    completed_group.state_id ≡ some (derive_route_group_state completed_group [])
unfolding recompute_and_auto_complete_plans affected_by contains find_plan find_group update_plan
    remember related group_of_order note_plan note_group collect resolve_by_stops complete_plan
    complete_plans sync_group sync_found sync_groups sync_plan sync_plans with_counts orders_of
    groups_of bump joined_name count_name state_counts total update_group
    recompute_route_group_order_counts recompute_groups recompute_local_delivery_counts
    recompute_plan_order_counts maybe_sync_plan_state_from_groups maybe_auto_complete_plan
    apply_plan_state derive_auto_complete_state get_selected_route_solution selected_or count_of
    derive_plan_state_from_groups state_set sole_state has_state derive_route_group_state
    derive_from_orders derive_from_counts maybe_sync_route_group_state apply_route_group_state all
    select is_set_of all_match order_state_seeds
cascade-group_example =
    cascade-group order_state_seeds (done_order ∷ []) db 5 completed_group refl refl
