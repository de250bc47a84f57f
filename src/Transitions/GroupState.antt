-- ===== src/Transitions/GroupState.antt =====
-- Delivery_app_BK/services/domain/state_transitions/route_group_state_engine.py: the state of a
-- route group, from its counters or from its orders.
use next_mark_backend_v.Prelude.{
  ℕ, String, Bool, true, false, not, ◌&&◌, Option, none, some, List, [], ◌∷◌, map, ◌==◌, str_eq,
  ltb, if◌then◌else◌,
}
use next_mark_backend_v.Transitions.Ids.{id_is}
use next_mark_backend_v.Transitions.OrderStateId
use next_mark_backend_v.Transitions.PlanStateId
use next_mark_backend_v.Transitions.Counts.{total}
use next_mark_backend_v.Transitions.Model.{
  OrderRow, RouteGroup, StateCounts, completed_name, processing_name, ready_name, cancelled_name,
}

-- Returns the group, and whether its state changed.
unfoldable pub apply_route_group_state : RouteGroup → ℕ → RouteGroup × Bool
apply_route_group_state g s =
    if id_is g.state_id s then (g, false) else (record g { state_id = some s }, true)

module _ {ℓ} {A : Type ℓ} (p : A → Bool) where
  unfoldable pub all : List A → Bool
  all [] = true
  all (x ∷ xs) = p x && all xs

  unfoldable pub select : List A → List A
  select [] = []
  select (x ∷ xs) = if p x then x ∷ select xs else select xs

-- `set(xs) == {v}`, by a test for `v`.
unfoldable pub is_set_of {ℓ} : {A : Type ℓ} → (A → Bool) → List A → Bool
unfolding all
is_set_of is_v [] = false
is_set_of is_v (x ∷ xs) = is_v x && all is_v xs

abbrev pub is_active : String × ℕ → Bool
is_active e = not (str_eq e.0 cancelled_name) && ltb 0 e.1

abbrev pub key : String × ℕ → String
key e = e.0

-- The ladder of comparisons with {Completed}, {Processing} and {Ready}.
unfoldable pub all_match {ℓ} : {A : Type ℓ} → (A → Bool) → (A → Bool) → (A → Bool) → List A → ℕ
unfolding is_set_of
all_match is_completed is_processing is_ready xs =
    if is_set_of is_completed xs
    then PlanStateId.completed
    else if is_set_of is_processing xs
    then PlanStateId.processing
    else if is_set_of is_ready xs
    then PlanStateId.ready
    else PlanStateId.opened

unfoldable pub derive_from_counts : StateCounts → ℕ
unfolding select total all_match
derive_from_counts counts =
    let active_counts = select is_active counts in
    if total active_counts == 0
    then PlanStateId.opened
    else all_match (λ n. str_eq n completed_name) (λ n. str_eq n processing_name)
        (λ n. str_eq n ready_name) (map key active_counts)

abbrev pub state_of : OrderRow → Option ℕ
state_of o = o.order_state_id

-- The branch for a group whose counters were never computed.
unfoldable pub derive_from_orders : List OrderRow → ℕ
unfolding select all_match
derive_from_orders orders =
    let active_orders = select (λ o. not (id_is o.order_state_id OrderStateId.cancelled)) orders in
    all_match (λ s. id_is s OrderStateId.completed) (λ s. id_is s OrderStateId.processing)
      (λ s. id_is s OrderStateId.ready) (map state_of active_orders)

-- `counts or total_orders is not None`: an empty dictionary is false.
unfoldable pub derive_route_group_state : RouteGroup → List OrderRow → ℕ
unfolding derive_from_counts derive_from_orders
derive_route_group_state g orders = elim g.order_state_counts [
  | some (e ∷ m) ↦ derive_from_counts (e ∷ m)
  | _ ↦ elim g.total_orders [ some t ↦ derive_from_counts [] | none ↦ derive_from_orders orders ]
]

unfoldable pub maybe_sync_route_group_state : RouteGroup → List OrderRow → RouteGroup × Bool
unfolding derive_route_group_state apply_route_group_state
maybe_sync_route_group_state g orders =
    apply_route_group_state g (derive_route_group_state g orders)
