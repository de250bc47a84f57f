-- ===== src/Orders/PlanChange/Destination.antt =====
-- Into which route group of the plan an order goes
-- (Delivery_app_BK/services/commands/order/update_order_route_plan.py).
use next_mark_backend_v.Prelude.{
  ℕ, Bool, true, ◌&&◌, ◌||◌, Option, none, some, List, [], ◌∷◌, map, ◌==◌, leb, if◌then◌else◌,
}
use next_mark_backend_v.Prelude.Sorting.{sort}
use next_mark_backend_v.Prelude.Rows.{any, select}
use next_mark_backend_v.Result.{Result, ok, err, validation_failed, ◌>>=◌, ◌>>◌, guard}
use next_mark_backend_v.Team.{Context}
use next_mark_backend_v.Transitions.Ids.{id_is}
use next_mark_backend_v.Transitions.Model.{OrderRow}

-- The columns of `RouteGroup` that are read here.
pub record Group : Type 0 where
  pub id : ℕ
  pub team_id : Option ℕ
  pub route_plan_id : ℕ
  pub zone_id : Option ℕ

pub record ZoneAssignment : Type 0 where
  pub order_id : ℕ
  pub zone_id : Option ℕ
  pub is_unassigned : Bool

-- An order that changes, with its plan and group of before.
pub record Changed : Type 0 where
  pub order : OrderRow
  pub old_plan_id : Option ℕ
  pub old_route_group_id : Option ℕ

abbrev pub in_callers_team : Context → Option ℕ → Bool
in_callers_team ctx team_id = elim ctx.team_id [ none ↦ true | some t ↦ t == 0 || id_is team_id t ]

abbrev by_id : Group → Group → Bool
by_id a b = leb a.id b.id

abbrev pub nonempty : List Group → Result (List Group)
nonempty [] = err validation_failed
nonempty (g ∷ groups) = ok (g ∷ groups)

unfoldable pub load_route_groups_for_plan : Context → ℕ → List Group → Result (List Group)
load_route_groups_for_plan ctx route_plan_id groups = nonempty (
    sort by_id
      (select (λ g. g.route_plan_id == route_plan_id && in_callers_team ctx g.team_id) groups))

-- The last row of the order: later rows replace earlier ones in the dictionary.
unfoldable pub zone_assignment_of : ℕ → List ZoneAssignment → Option ZoneAssignment
zone_assignment_of i [] = none
zone_assignment_of i (z ∷ zones) =
    let later = zone_assignment_of i zones in
    elim later [ none ↦ if z.order_id == i then some z else none | some row ↦ some row ]

-- `route_group_id_by_zone_id.get(zone_id)`: the last group of the zone, and no group for no zone.
unfoldable pub group_of_zone : Option ℕ → List Group → Option ℕ
group_of_zone none groups = none
group_of_zone (some zone_id) [] = none
group_of_zone (some zone_id) (g ∷ groups) =
    let later = group_of_zone (some zone_id) groups in
    elim later [ none ↦ if id_is g.zone_id zone_id then some g.id else none | some i ↦ some i ]

-- The first group without a zone.
unfoldable pub no_zone_group : List Group → Option ℕ
no_zone_group [] = none
no_zone_group (g ∷ groups) = elim g.zone_id [ none ↦ some g.id | some _ ↦ no_zone_group groups ]

abbrev pub zone_of : Option ZoneAssignment → Option ℕ
zone_of none = none
zone_of (some assignment) = if assignment.is_unassigned then none else assignment.zone_id

-- `first if first is not None else second`
abbrev pub or_else : Option ℕ → Option ℕ → Option ℕ
or_else none second = second
or_else (some i) second = some i

-- The group that an order keeps because it is in the plan already.
unfoldable pub kept_group : ℕ → Changed → Option ℕ
kept_group new_plan_id changed =
    if id_is changed.old_plan_id new_plan_id then changed.order.route_group_id else none

unfoldable pub inferred_group : List ZoneAssignment → List Group → ℕ → Changed → Option ℕ
unfolding kept_group zone_assignment_of group_of_zone no_zone_group
inferred_group zones groups new_plan_id changed = or_else (kept_group new_plan_id changed) (
    or_else (group_of_zone (zone_of (zone_assignment_of changed.order.id zones)) groups)
      (no_zone_group groups))

abbrev pub required_group : Option ℕ → Result ℕ
required_group none = err validation_failed
required_group (some i) = ok i

unfoldable pub infer_destinations :
    List ZoneAssignment → List Group → ℕ → List Changed → Result (List (ℕ × ℕ))
unfolding inferred_group
infer_destinations zones groups new_plan_id [] = ok []
infer_destinations zones groups new_plan_id (c ∷ changed) = do
  i ← required_group (inferred_group zones groups new_plan_id c)
  rest ← infer_destinations zones groups new_plan_id changed
  ok ((c.order.id, i) ∷ rest)

abbrev pub to_group : ℕ → Changed → ℕ × ℕ
to_group i c = (c.order.id, i)

unfoldable pub resolve_destination_route_group_ids :
    List Changed → List ZoneAssignment → List Group → Option ℕ → ℕ → Result (List (ℕ × ℕ))
unfolding infer_destinations
resolve_destination_route_group_ids changed zones groups (some destination) new_plan_id = do
  guard (any (λ g. g.id == destination) groups) validation_failed
  ok (map (to_group destination) changed)
resolve_destination_route_group_ids changed zones (g ∷ []) none new_plan_id =
    ok (map (to_group g.id) changed)
resolve_destination_route_group_ids changed zones groups none new_plan_id =
    infer_destinations zones groups new_plan_id changed

-- `destinations.get(order_id)`; the ids of the orders differ.
unfoldable pub destination_of : ℕ → List (ℕ × ℕ) → Option ℕ
destination_of i [] = none
destination_of i (d ∷ destinations) = if d.0 == i then some d.1 else destination_of i destinations
