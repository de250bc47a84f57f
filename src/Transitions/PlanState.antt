-- ===== src/Transitions/PlanState.antt =====
-- Delivery_app_BK/services/domain/state_transitions/plan_state_engine.py: the state of a plan.
pub mod Derived
use next_mark_backend_v.Prelude.{
  ℕ, String, Bool, true, false, not, ◌||◌, Option, none, some, List, [], ◌∷◌, ◌==◌, str_eq, leb,
  if◌then◌else◌,
}
use next_mark_backend_v.Transitions.Ids.{id_is, same_id}
use next_mark_backend_v.Transitions.PlanStateId
use next_mark_backend_v.Transitions.Counts.{groups_of}
use next_mark_backend_v.Transitions.Model.{
  RouteSolution, RouteGroup, RoutePlan, StateCounts, completed_name,
}

-- `counts.get(name, 0)`.
unfoldable pub count_of : String → StateCounts → ℕ
count_of n [] = 0
count_of n ((k, c) ∷ m) = if str_eq k n then c else count_of n m

abbrev pub or_zero : Option ℕ → ℕ
or_zero none = 0
or_zero (some n) = n

abbrev pub or_empty : Option StateCounts → StateCounts
or_empty none = []
or_empty (some m) = m

unfoldable pub derive_auto_complete_state : Option RouteGroup → Option ℕ
unfolding count_of
derive_auto_complete_state none = none
derive_auto_complete_state (some g) =
    let total = or_zero g.total_orders in
    let completed = count_of completed_name (or_empty g.order_state_counts) in
    if total == 0 then none else if leb total completed then some PlanStateId.completed else none

-- The first selected solution, or else the first one.
unfoldable pub selected_or : Option RouteSolution → List RouteSolution → Option RouteSolution
selected_or first [] = first
selected_or first (rs ∷ rest) = if rs.is_selected then some rs else selected_or first rest

abbrev pub head : List RouteSolution → Option RouteSolution
head [] = none
head (rs ∷ rest) = some rs

-- The solution comes with its group, which is its `route_group`.
unfoldable pub get_selected_route_solution : List RouteGroup → Option (RouteGroup × RouteSolution)
unfolding selected_or
get_selected_route_solution [] = none
get_selected_route_solution (g ∷ gs) =
    let rest = get_selected_route_solution gs in
    elim (selected_or (head g.route_solutions) g.route_solutions) [
      | some rs ↦ some (g, rs)
      | none ↦ rest
    ]

unfoldable pub should_reset_plan_to_open : Option ℕ → Bool
should_reset_plan_to_open current_state_id = not (id_is current_state_id PlanStateId.opened)

-- Returns the plan, and whether its state changed.
unfoldable pub apply_plan_state : RoutePlan → ℕ → RoutePlan × Bool
apply_plan_state plan s =
    if id_is plan.state_id s then (plan, false) else (record plan { state_id = some s }, true)

abbrev pub group_of_solution : Option (RouteGroup × RouteSolution) → Option RouteGroup
group_of_solution none = none
group_of_solution (some (g, rs)) = some g

unfoldable pub maybe_auto_complete_plan : List RouteGroup → RoutePlan → RoutePlan × Bool
unfolding derive_auto_complete_state get_selected_route_solution apply_plan_state groups_of
maybe_auto_complete_plan groups plan =
    elim (derive_auto_complete_state
      (group_of_solution (get_selected_route_solution (groups_of plan.id groups)))) [
        | none ↦ (plan, false)
        | some auto_state ↦ apply_plan_state plan auto_state
      ]

-- The set of the groups' states, each kept once.
unfoldable pub has_state : Option ℕ → List (Option ℕ) → Bool
has_state s [] = false
has_state s (t ∷ ts) = same_id s t || has_state s ts

unfoldable pub state_set : List RouteGroup → List (Option ℕ)
unfolding has_state
state_set [] = []
state_set (g ∷ gs) =
    let rest = state_set gs in if has_state g.state_id rest then rest else g.state_id ∷ rest

abbrev pub is_shared_state : ℕ → Bool
is_shared_state s =
    s == PlanStateId.completed || (s == PlanStateId.processing || s == PlanStateId.ready)

-- `len(state_ids) == 1`, and then its one member.
unfoldable pub sole_state : List (Option ℕ) → ℕ
sole_state (some s ∷ []) = if is_shared_state s then s else PlanStateId.opened
sole_state _ = PlanStateId.opened

unfoldable pub derive_plan_state_from_groups : ℕ → List RouteGroup → ℕ
unfolding groups_of state_set sole_state
derive_plan_state_from_groups plan_id groups = sole_state (state_set (groups_of plan_id groups))

unfoldable pub maybe_sync_plan_state_from_groups : List RouteGroup → RoutePlan → RoutePlan × Bool
unfolding derive_plan_state_from_groups apply_plan_state
maybe_sync_plan_state_from_groups groups plan =
    apply_plan_state plan (derive_plan_state_from_groups plan.id groups)
