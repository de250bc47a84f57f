-- ===== src/Orders/PlanChange.antt =====
-- Delivery_app_BK/services/commands/order/update_order_route_plan.py: orders are moved into a plan.
pub mod Destination
pub mod Placed
pub mod Again
pub mod Heritage
mod Tests
use next_mark_backend_v.Prelude.{
  ℕ, String, Bool, true, false, ◌&&◌, ◌||◌, not, Option, none, some, List, [], ◌∷◌, map, ◌==◌,
  str_eq, if◌then◌else◌,
}
use next_mark_backend_v.Prelude.Rows.{is_some, any, select}
use next_mark_backend_v.Result.{Result, ok, err, validation_failed, not_found, ◌>>=◌, ◌>>◌, guard}
use next_mark_backend_v.Team.{Context, require_team_id, ensure_instance_in_team}
use next_mark_backend_v.Transitions.Ids.{id_is, same_id}
use next_mark_backend_v.Transitions.Model.{OrderRow}
use next_mark_backend_v.Transitions.Cascade.{contains}
use next_mark_backend_v.Orders.Resolve.{dedupe_ids, pick_orders}
use next_mark_backend_v.Orders.PlanChange.Destination.{
  Group, ZoneAssignment, load_route_groups_for_plan, resolve_destination_route_group_ids,
  destination_of, Changed,
}

-- The columns of `RoutePlan` that are read here.
pub record RoutePlan : Type 0 where
  pub id : ℕ
  pub team_id : Option ℕ
  pub plan_type : String
  pub start_date : Option ℕ
  pub end_date : Option ℕ

-- The argument `order_ids`; `none` in a list stands for an entry that is no integer.
pub data OrderIds : Type 0 where
  one_order : ℕ → OrderIds
  listed : List (Option ℕ) → OrderIds
  neither : OrderIds

unfoldable pub dedupe_order_ids : List ℕ → List (Option ℕ) → Result (List ℕ)
unfolding contains
dedupe_order_ids seen [] = ok []
dedupe_order_ids seen (none ∷ order_ids) = err validation_failed
dedupe_order_ids seen (some i ∷ order_ids) =
    let skipped = dedupe_order_ids seen order_ids in
    let kept = dedupe_order_ids (i ∷ seen) order_ids >>= λ rest. ok (i ∷ rest) in
    if contains i seen then skipped else kept

unfoldable pub normalize_order_ids : OrderIds → Result (List ℕ)
unfolding dedupe_order_ids
normalize_order_ids (one_order i) = ok (i ∷ [])
normalize_order_ids (listed order_ids) = dedupe_order_ids [] order_ids
normalize_order_ids neither = err validation_failed

unfoldable pub find_route_plan : ℕ → List RoutePlan → Option RoutePlan
find_route_plan i [] = none
find_route_plan i (p ∷ ps) = if p.id == i then some p else find_route_plan i ps

unfoldable pub plan_of_team : Context → Option RoutePlan → Result RoutePlan
unfolding ensure_instance_in_team
plan_of_team ctx none = err not_found
plan_of_team ctx (some p) =
    if ctx.check_team_id then (do ensure_instance_in_team p.team_id ctx; ok p) else ok p

-- `plan_id` is `none` where it is no integer.
unfoldable pub resolve_plan_instance : Context → Option ℕ → List RoutePlan → Result RoutePlan
unfolding find_route_plan plan_of_team
resolve_plan_instance ctx none plans = err validation_failed
resolve_plan_instance ctx (some i) plans = plan_of_team ctx (find_route_plan i plans)

unfoldable pub resolve_orders_for_update : Context → List OrderRow → List ℕ → Result (List OrderRow)
unfolding dedupe_ids pick_orders require_team_id
resolve_orders_for_update ctx orders [] = ok []
resolve_orders_for_update ctx orders (i ∷ order_ids) = do
  if ctx.check_team_id then (do t ← require_team_id ctx; ok tt) else ok tt
  pick_orders ctx orders (dedupe_ids [] (i ∷ order_ids))

-- The plans of the query, which are those of the caller's team, where it has one.
abbrev pub of_team : Context → Option ℕ → Bool
of_team ctx team_id = elim ctx.team_id [ none ↦ true | some t ↦ t == 0 || id_is team_id t ]

unfoldable pub load_route_plans_by_id : Context → List ℕ → List RoutePlan → List RoutePlan
unfolding contains
load_route_plans_by_id ctx plan_ids plans =
    select (λ p. contains p.id plan_ids && of_team ctx p.team_id) plans

-- Whether an order is in the destination already.
unfoldable pub is_settled : ℕ → Option ℕ → OrderRow → Bool
is_settled new_plan_id destination o =
    id_is o.route_plan_id new_plan_id
    && (not (is_some destination) || same_id o.route_group_id destination)

-- The orders that change, each with the plan and the group of before.
unfoldable pub changed_orders : ℕ → Option ℕ → List OrderRow → List Changed
unfolding is_settled
changed_orders new_plan_id destination [] = []
changed_orders new_plan_id destination (o ∷ orders) =
    let rest = changed_orders new_plan_id destination orders in
    if is_settled new_plan_id destination o
    then rest
    else record { order = o; old_plan_id = o.route_plan_id; old_route_group_id = o.route_group_id }
      ∷ rest

abbrev pub same_dates : RoutePlan → RoutePlan → Bool
same_dates a b = same_id a.start_date b.start_date && same_id a.end_date b.end_date

-- The destination plan is given here.
unfoldable pub route_plan_move_reschedule_reason :
    Option ℕ → Option RoutePlan → RoutePlan → Option String
route_plan_move_reschedule_reason none old_plan new_plan = some "plan_assigned"
route_plan_move_reschedule_reason (some old_plan_id) none new_plan = none
route_plan_move_reschedule_reason (some old_plan_id) (some old_plan) new_plan =
    if same_dates old_plan new_plan then none else some "plan_move_date_changed"

-- An order after its move, its objective, and the reason of the reschedule event, if there is one.
pub record Moved : Type 0 where
  pub order : OrderRow
  pub order_plan_objective : String
  pub old_plan_id : Option ℕ
  pub reschedule_reason : Option String

abbrev pub old_plan_of : Option ℕ → List RoutePlan → Option RoutePlan
old_plan_of none plans = none
old_plan_of (some i) plans = if i == 0 then none else find_route_plan i plans

unfoldable pub move_order : RoutePlan → List RoutePlan → List (ℕ × ℕ) → Changed → Moved
unfolding route_plan_move_reschedule_reason destination_of find_route_plan
move_order new_plan old_plans destinations changed = record {
  order = record changed.order {
    route_plan_id = some new_plan.id;
    route_group_id = destination_of changed.order.id destinations;
  };
  order_plan_objective = new_plan.plan_type;
  old_plan_id = changed.old_plan_id;
  reschedule_reason =
      route_plan_move_reschedule_reason changed.old_plan_id
        (old_plan_of changed.old_plan_id old_plans) new_plan;
}

-- The rows that the command reads.
pub record Tables : Type 0 where
  pub orders : List OrderRow
  pub plans : List RoutePlan
  pub groups : List Group
  pub zones : List ZoneAssignment

abbrev pub destinations_for :
    Context → Tables → RoutePlan → Option ℕ → List Changed → Result (List (ℕ × ℕ))
destinations_for ctx tables new_plan destination changed =
    let resolved = do
      groups ← load_route_groups_for_plan ctx new_plan.id tables.groups
      resolve_destination_route_group_ids changed tables.zones groups destination new_plan.id
    in if str_eq new_plan.plan_type "local_delivery"
      then resolved
      else (guard (not (is_some destination)) validation_failed >> ok [])

abbrev pub old_plan_ids : List Changed → List ℕ
old_plan_ids [] = []
old_plan_ids (c ∷ changed) = elim c.old_plan_id [
  | none ↦ old_plan_ids changed
  | some i ↦ i ∷ old_plan_ids changed
]

-- A request that changes no order returns before it reads the groups.
unfoldable pub place_orders :
    Context → Tables → RoutePlan → Option ℕ → List Changed → Result (List Moved)
unfolding load_route_plans_by_id move_order load_route_groups_for_plan
    resolve_destination_route_group_ids
place_orders ctx tables new_plan destination [] = ok []
place_orders ctx tables new_plan destination (c ∷ changed) = do
  destinations ← destinations_for ctx tables new_plan destination (c ∷ changed)
  ok (
      map
        (move_order new_plan (load_route_plans_by_id ctx (old_plan_ids (c ∷ changed)) tables.plans)
          destinations)
        (c ∷ changed))

unfoldable pub assign_ids : Context → Tables → List ℕ → Option ℕ → Option ℕ → Result (List Moved)
unfolding resolve_plan_instance resolve_orders_for_update changed_orders place_orders
assign_ids ctx tables [] plan_id destination = ok []
assign_ids ctx tables (i ∷ ids) plan_id destination = do
  new_plan ← resolve_plan_instance ctx plan_id tables.plans
  orders ← resolve_orders_for_update ctx tables.orders (i ∷ ids)
  place_orders ctx tables new_plan destination (changed_orders new_plan.id destination orders)

-- The assignment of plans, groups and objectives. What it builds for the route stops and writes in
-- bulk afterwards is not part of it.
unfoldable pub assign_orders_to_plan :
    Context → Tables → OrderIds → Option ℕ → Option ℕ → Result (List Moved)
unfolding normalize_order_ids assign_ids
assign_orders_to_plan ctx tables order_ids plan_id destination = do
  ids ← normalize_order_ids order_ids
  assign_ids ctx tables ids plan_id destination
