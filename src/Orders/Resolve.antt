-- ===== src/Orders/Resolve.antt =====
-- Which orders a request for a change of states names: `_resolve_orders` and its helpers in
-- Delivery_app_BK/services/commands/order/order_states/update_orders_state.py.
use next_mark_backend_v.Prelude.{
  ℕ, Bool, false, not, ◌||◌, Option, none, some, List, [], ◌∷◌, ◌==◌, if◌then◌else◌,
}
use next_mark_backend_v.Result.{Result, ok, err, validation_failed, not_found, ◌>>=◌, ◌>>◌}
use next_mark_backend_v.Team.{Context, require_team_id, ensure_instance_in_team}
use next_mark_backend_v.Transitions.Ids.{id_is}
use next_mark_backend_v.Transitions.Model.{OrderRow}
use next_mark_backend_v.Transitions.Cascade.{contains}

-- The argument `orders`.
pub data OrdersArg : Type 0 where
  one_id : ℕ → OrdersArg
  ids : List ℕ → OrdersArg
  instances : List OrderRow → OrdersArg
  mixed not_a_list : OrdersArg

-- `list(dict.fromkeys(order_ids))`.
unfoldable pub dedupe_ids : List ℕ → List ℕ → List ℕ
unfolding contains
dedupe_ids seen [] = []
dedupe_ids seen (i ∷ is) =
    let skipped = dedupe_ids seen is in
    let kept = i ∷ dedupe_ids (i ∷ seen) is in if contains i seen then skipped else kept

unfoldable pub find_order : ℕ → List OrderRow → Option OrderRow
find_order i [] = none
find_order i (o ∷ os) = if o.id == i then some o else find_order i os

-- `get_instance(ctx, Order, id)`.
unfoldable pub get_order : Context → ℕ → List OrderRow → Result OrderRow
unfolding find_order ensure_instance_in_team
get_order ctx i orders = elim (find_order i orders) [
  | none ↦ err not_found
  | some o ↦ if ctx.check_team_id then (do ensure_instance_in_team o.team_id ctx; ok o) else ok o
]

-- Rows of another team are filtered out by the query, and so are missing like absent ones.
unfoldable pub visible : Context → OrderRow → Bool
unfolding require_team_id
visible ctx o =
    not ctx.check_team_id || elim ctx.team_id [ none ↦ false | some t ↦ id_is o.team_id t ]

unfoldable pub pick_order : Context → List OrderRow → ℕ → Result OrderRow
unfolding find_order visible
pick_order ctx orders i = elim (find_order i orders) [
  | none ↦ err not_found
  | some o ↦ if visible ctx o then ok o else err not_found
]

unfoldable pub pick_orders : Context → List OrderRow → List ℕ → Result (List OrderRow)
unfolding pick_order
pick_orders ctx orders [] = ok []
pick_orders ctx orders (i ∷ is) = do
  o ← pick_order ctx orders i
  rest ← pick_orders ctx orders is
  ok (o ∷ rest)

unfoldable pub resolve_orders_by_ids : Context → List OrderRow → List ℕ → Result (List OrderRow)
unfolding dedupe_ids pick_orders require_team_id
resolve_orders_by_ids ctx orders order_ids = do
  if ctx.check_team_id then (do t ← require_team_id ctx; ok tt) else ok tt
  pick_orders ctx orders (dedupe_ids [] order_ids)

unfoldable pub resolve_order_instances : Context → List ℕ → List OrderRow → Result (List OrderRow)
unfolding contains ensure_instance_in_team
resolve_order_instances ctx seen [] = ok []
resolve_order_instances ctx seen (o ∷ os) =
    let skipped = resolve_order_instances ctx seen os in
    let kept = resolve_order_instances ctx (o.id ∷ seen) os in
    do
      if ctx.check_team_id then ensure_instance_in_team o.team_id ctx else ok tt
      if contains o.id seen then skipped else (do rest ← kept; ok (o ∷ rest))

unfoldable pub resolve_orders : Context → List OrderRow → OrdersArg → Result (List OrderRow)
unfolding get_order resolve_orders_by_ids resolve_order_instances
resolve_orders ctx orders (one_id i) = do o ← get_order ctx i orders; ok (o ∷ [])
resolve_orders ctx orders (ids []) = ok []
resolve_orders ctx orders (ids (i ∷ is)) = resolve_orders_by_ids ctx orders (i ∷ is)
resolve_orders ctx orders (instances os) = resolve_order_instances ctx [] os
resolve_orders ctx orders mixed = err validation_failed
resolve_orders ctx orders not_a_list = err validation_failed
