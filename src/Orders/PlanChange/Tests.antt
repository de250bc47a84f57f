-- ===== src/Orders/PlanChange/Tests.antt =====
-- The theorems on moves into a plan at concrete orders.
use next_mark_backend_v.Prelude.{◌≡◌, refl, true, false, none, some, [], ◌∷◌, map}
use next_mark_backend_v.Prelude.Sorting.{All}
use next_mark_backend_v.Result.{OnOk}
use next_mark_backend_v.Team.{Context}
use next_mark_backend_v.Transitions.OrderStateId
use next_mark_backend_v.Transitions.PlanStateId
use next_mark_backend_v.Transitions.Model
use next_mark_backend_v.Transitions.Model.{
  OrderRow, RouteGroup, Db, StateCounts, order_state_seeds, confirmed_name,
}
use next_mark_backend_v.Transitions.Moves.{compute_destination_move_result}
use next_mark_backend_v.Transitions.Counts.{
  with_counts, orders_of, groups_of, bump, joined_name, count_name, state_counts, total,
  update_group, recompute_route_group_order_counts, recompute_groups,
  recompute_local_delivery_counts, recompute_plan_order_counts,
}
use next_mark_backend_v.Transitions.GroupState.{
  derive_route_group_state, derive_from_counts, maybe_sync_route_group_state,
  apply_route_group_state, is_set_of, all_match,
}
use next_mark_backend_v.Transitions.PlanState.{
  derive_plan_state_from_groups, state_set, sole_state, has_state,
  maybe_sync_plan_state_from_groups, maybe_auto_complete_plan, apply_plan_state,
  derive_auto_complete_state, get_selected_route_solution, selected_or, count_of,
}
use next_mark_backend_v.Transitions.Cascade.{
  contains, find_plan, find_group, update_plan, sync_plan, sync_plans,
}
use next_mark_backend_v.Orders.Resolve.{find_order}
use next_mark_backend_v.Orders.StateUpdate.{write_order}
use next_mark_backend_v.Orders.PlanChange.{
  RoutePlan, Tables, listed, changed_orders, assign_orders_to_plan,
}
use next_mark_backend_v.Orders.PlanChange.Destination.{
  Group, ZoneAssignment, Changed, kept_group, resolve_destination_route_group_ids,
}
use next_mark_backend_v.Orders.PlanChange.Placed.{is_ok, is_placeable, lands, resolve-Placed}
use next_mark_backend_v.Orders.PlanChange.Again.{moved_order, assign_orders_to_plan-again}
use next_mark_backend_v.Orders.PlanChange.Heritage.{
  Details, apply_move_state_heritage, inherit_states, inherit_found, inherit_state, recount_plans,
  recount_groups, auto_complete_plans, sync_group_states,
}
use next_mark_backend_v.Orders.PlanChange.Heritage.Settled.{heritage-settled}

abbrev order : OrderRow
order = record {
  id = 1;
  team_id = some 9;
  order_notes = none;
  order_state_id = some OrderStateId.processing;
  route_plan_id = some 2;
  route_group_id = some 4;
}

abbrev group : Group
group = record { id = 5; team_id = some 9; route_plan_id = 3; zone_id = some 8 }

abbrev other_group : Group
other_group = record { id = 6; team_id = some 9; route_plan_id = 3; zone_id = none }

abbrev zone : ZoneAssignment
zone = record { order_id = 1; zone_id = some 8; is_unassigned = false }

abbrev moving : Changed
moving = record { order = order; old_plan_id = some 2; old_route_group_id = some 4 }

resolve-Placed_example :
    let call =
      resolve_destination_route_group_ids
        (moving ∷ [])
        (zone ∷ [])
        (group ∷ other_group ∷ [])
        none
        3 in
    (is_ok call ≡ is_placeable (moving ∷ []) (zone ∷ []) (group ∷ other_group ∷ []) none 3)
    × OnOk
        (λ destinations.
          All (λ c. lands (group ∷ other_group ∷ []) destinations c ≡ true) (moving ∷ []))
        call
unfolding kept_group
resolve-Placed_example =
    resolve-Placed (moving ∷ []) (zone ∷ []) (group ∷ other_group ∷ []) none 3 (refl, tt)

abbrev plan : RoutePlan
plan = record {
  id = 3;
  team_id = some 9;
  plan_type = "local_delivery";
  start_date = some 100;
  end_date = some 200;
}

abbrev tables : Tables
tables = record {
  orders = order ∷ [];
  plans = plan ∷ [];
  groups = group ∷ other_group ∷ [];
  zones = zone ∷ [];
}

abbrev context : Context
context = record { team_id = some 9; check_team_id = true }

assign_orders_to_plan-again_example :
    OnOk
      (λ moved. changed_orders 3 none (map moved_order moved) ≡ [])
      (assign_orders_to_plan context tables (listed (some 1 ∷ some 1 ∷ [])) (some 3) none)
assign_orders_to_plan-again_example =
    assign_orders_to_plan-again context tables (listed (some 1 ∷ some 1 ∷ [])) 3 none

abbrev details : Details
details = record {
  reference_number = λ i. none;
  plan_label = none;
  plan_end_date = none;
  strip = λ s. s;
  now = 50;
  case_message = none;
}

abbrev route_group : RouteGroup
route_group = record {
  id = 5;
  route_plan_id = 3;
  state_id = some PlanStateId.opened;
  total_orders = none;
  order_state_counts = none;
  route_solutions = [];
}

abbrev db : Db
db = record {
  orders = record order { route_plan_id = some 3; route_group_id = some 5 } ∷ [];
  groups = route_group ∷ [];
  plans = record { id = 3; state_id = some PlanStateId.opened; plan_type = "local_delivery" } ∷ [];
  stop_groups = [];
}

abbrev counted_group : RouteGroup
counted_group = record route_group {
  total_orders = some 1;
  order_state_counts = some ((confirmed_name, 1) ∷ []);
}

abbrev settled_plan : Model.RoutePlan
settled_plan = record { id = 3; state_id = some PlanStateId.opened; plan_type = "local_delivery" }

heritage-settled_example :
    let after =
      (apply_move_state_heritage order_state_seeds details 3 (1 ∷ []) (3 ∷ []) (5 ∷ []) db).0 in
    (with_counts order_state_seeds after.orders counted_group ≡ counted_group)
    × (counted_group.state_id ≡ some (derive_route_group_state counted_group []))
    × (settled_plan.state_id ≡ some (derive_plan_state_from_groups 3 after.groups))
unfolding apply_move_state_heritage inherit_states inherit_found inherit_state
    compute_destination_move_result find_order find_plan find_group write_order update_plan
    apply_plan_state recount_plans recount_groups recompute_plan_order_counts
    recompute_local_delivery_counts recompute_groups recompute_route_group_order_counts groups_of
    update_group with_counts orders_of state_counts joined_name count_name bump total
    order_state_seeds auto_complete_plans maybe_auto_complete_plan derive_auto_complete_state
    get_selected_route_solution selected_or count_of sync_group_states maybe_sync_route_group_state
    apply_route_group_state derive_route_group_state derive_from_counts all_match is_set_of
    sync_plans sync_plan maybe_sync_plan_state_from_groups derive_plan_state_from_groups state_set
    sole_state has_state contains
heritage-settled_example =
    heritage-settled order_state_seeds details 3 (1 ∷ []) (3 ∷ []) (5 ∷ []) db 5 3 counted_group
      settled_plan refl refl refl refl
