-- ===== src/Transitions/Counts.antt =====
-- Delivery_app_BK/services/domain/state_transitions/order_count_engine.py: the denormalised order
-- counts of route groups.
pub mod Named
pub mod Agreement
use next_mark_backend_v.Prelude.{
  ℕ, ◌+◌, String, Bool, true, false, Option, none, some, List, [], ◌∷◌, map, ◌==◌, str_eq,
  if◌then◌else◌,
}
use next_mark_backend_v.Transitions.Ids.{id_is}
use next_mark_backend_v.Transitions.Model.{OrderRow, RouteGroup, RoutePlan, StateCounts, Db, Names}

-- One more order under a name, in a `GROUP BY` over the names.
unfoldable pub bump : String → StateCounts → StateCounts
bump n [] = (n, 1) ∷ []
bump n ((k, c) ∷ m) = if str_eq k n then (k, c + 1) ∷ m else (k, c) ∷ bump n m

-- The name of an order's state, by the join with `order_state`. An order with no state, or with
-- one that the table lacks, joins with nothing; an empty name is skipped by `if state_name`.
unfoldable pub joined_name : Names → OrderRow → Option String
joined_name names o = elim o.order_state_id [
  | none ↦ none
  | some s ↦ elim (names s) [ none ↦ none | some n ↦ if str_eq n "" then none else some n ]
]

unfoldable pub count_name : Option String → StateCounts → StateCounts
unfolding bump
count_name none m = m
count_name (some n) m = bump n m

-- `{state_name: count}` over a list of orders.
unfoldable pub state_counts : Names → List OrderRow → StateCounts
unfolding joined_name count_name
state_counts names [] = []
state_counts names (o ∷ os) = count_name (joined_name names o) (state_counts names os)

unfoldable pub total : StateCounts → ℕ
total [] = 0
total ((k, c) ∷ m) = c + total m

-- `Order.route_group_id == route_group.id`.
unfoldable pub orders_of : ℕ → List OrderRow → List OrderRow
orders_of g [] = []
orders_of g (o ∷ os) = if id_is o.route_group_id g then o ∷ orders_of g os else orders_of g os

-- `counts or None`.
abbrev pub counts_or_none : StateCounts → Option StateCounts
counts_or_none [] = none
counts_or_none (e ∷ m) = some (e ∷ m)

unfoldable pub with_counts : Names → List OrderRow → RouteGroup → RouteGroup
unfolding orders_of state_counts total
with_counts names orders g =
    let counts = state_counts names (orders_of g.id orders) in
    record g { total_orders = some (total counts); order_state_counts = counts_or_none counts }

-- A write to the row with an id.
unfoldable pub update_group : ℕ → (RouteGroup → RouteGroup) → List RouteGroup → List RouteGroup
update_group i f [] = []
update_group i f (g ∷ gs) = (if g.id == i then f g else g) ∷ update_group i f gs

unfoldable pub recompute_route_group_order_counts : Names → ℕ → Db → Db
unfolding with_counts update_group
recompute_route_group_order_counts names i db = record db {
  groups = update_group i (with_counts names db.orders) db.groups;
}

-- `plan.route_groups`.
unfoldable pub groups_of : ℕ → List RouteGroup → List RouteGroup
groups_of p [] = []
groups_of p (g ∷ gs) = if g.route_plan_id == p then g ∷ groups_of p gs else groups_of p gs

unfoldable pub recompute_groups : Names → List RouteGroup → Db → Db
unfolding recompute_route_group_order_counts
recompute_groups names [] db = db
recompute_groups names (g ∷ gs) db =
    recompute_groups names gs (recompute_route_group_order_counts names g.id db)

unfoldable pub recompute_local_delivery_counts : Names → RoutePlan → Db → Db
unfolding recompute_groups groups_of
recompute_local_delivery_counts names plan db =
    recompute_groups names (groups_of plan.id db.groups) db

-- Only `local_delivery` plans have a handler.
unfoldable pub recompute_plan_order_counts : Names → RoutePlan → Db → Db
unfolding recompute_local_delivery_counts
recompute_plan_order_counts names plan db =
    if str_eq plan.plan_type "local_delivery"
    then recompute_local_delivery_counts names plan db
    else db
