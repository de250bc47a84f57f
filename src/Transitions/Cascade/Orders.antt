-- ===== src/Transitions/Cascade/Orders.antt =====
-- The cascade leaves the table of orders alone.
use next_mark_backend_v.Prelude.{ℕ, ◌≡◌, refl, ◌∙◌, Option, none, some, List, [], ◌∷◌, arith}
use next_mark_backend_v.Transitions.Counts.{
  groups_of, recompute_groups, recompute_route_group_order_counts, recompute_plan_order_counts,
}
use next_mark_backend_v.Transitions.Model.{OrderRow, RouteGroup, RoutePlan, Db, Names}
use next_mark_backend_v.Transitions.Cascade.{
  find_plan, find_group, affected_by, complete_plan, complete_plans, sync_found, sync_groups,
  sync_plan, sync_plans, recompute_and_auto_complete_plans,
}

orders-recompute_groups :
    (names : Names) (gs : List RouteGroup) (db : Db)
    → (recompute_groups names gs db).orders ≡ db.orders
unfolding recompute_groups
orders-recompute_groups names [] db = refl
orders-recompute_groups names (g ∷ gs) db =
    orders-recompute_groups names gs (recompute_route_group_order_counts names g.id db)

orders-recompute_plan :
    (names : Names) (p : RoutePlan) (db : Db)
    → (recompute_plan_order_counts names p db).orders ≡ db.orders
unfolding recompute_plan_order_counts
orders-recompute_plan names p db =
    ground (arith, orders-recompute_groups names (groups_of p.id db.groups) db)

orders-complete_plan :
    (names : Names) (db : Db) (o : Option RoutePlan) → (complete_plan names db o).orders ≡ db.orders
unfolding complete_plan
orders-complete_plan names db none = refl
orders-complete_plan names db (some p) = orders-recompute_plan names p db

orders-complete_plans :
    (names : Names) (is : List ℕ) (db : Db) → (complete_plans names is db).orders ≡ db.orders
unfolding complete_plans
orders-complete_plans names [] db = refl
orders-complete_plans names (i ∷ is) db =
    orders-complete_plans names is (complete_plan names db (find_plan i db.plans))
    ∙ orders-complete_plan names db (find_plan i db.plans)

orders-sync_found :
    (names : Names) (db : Db) (o : Option RouteGroup) → (sync_found names db o).orders ≡ db.orders
unfolding sync_found
orders-sync_found names db none = refl
orders-sync_found names db (some g) = ground arith

orders-sync_groups :
    (names : Names) (is : List ℕ) (db : Db) → (sync_groups names is db).orders ≡ db.orders
unfolding sync_groups
orders-sync_groups names [] db = refl
orders-sync_groups names (i ∷ is) db =
    orders-sync_groups names is (sync_found names db (find_group i db.groups))
    ∙ orders-sync_found names db (find_group i db.groups)

orders-sync_plans : (is : List ℕ) (db : Db) → (sync_plans is db).orders ≡ db.orders
unfolding sync_plans sync_plan
orders-sync_plans [] db = refl
orders-sync_plans (i ∷ is) db = orders-sync_plans is (sync_plan i db)

pub orders-cascade :
    (names : Names) (changed : List OrderRow) (db : Db)
    → (recompute_and_auto_complete_plans names changed db).orders ≡ db.orders
unfolding recompute_and_auto_complete_plans
orders-cascade names changed db =
    let a = affected_by db changed in
    orders-sync_plans a.plans (sync_groups names a.groups (complete_plans names a.plans db))
    ∙ orders-sync_groups names a.groups (complete_plans names a.plans db)
    ∙ orders-complete_plans names a.plans db
