-- ===== src/Transitions/Moves/Settling.antt =====
-- What repeated application of the move rules leads to.
use next_mark_backend_v.Prelude.{
  ℕ, ◌≡◌, ◌≢◌, ◌↔◌, Bool, true, ◌&&◌, not, Option, none, some, arith, if◌then◌else◌,
}
use next_mark_backend_v.Transitions.Ids.{id_is}
use next_mark_backend_v.Transitions.OrderStateId
use next_mark_backend_v.Transitions.PlanStateId
use next_mark_backend_v.Transitions.Moves.{Order, Plan, compute_destination_move_result}

abbrev new_state : Option ℕ → Option ℕ → Option ℕ
new_state none old = old
new_state (some s) old = some s

-- The order and the plan after the caller has applied a result to both.
pub record Pair : Type 0 where
  pub order : Order
  pub plan : Plan

unfoldable pub move : ℕ → Pair → Pair
move now p =
    let r = compute_destination_move_result p.order p.plan now in
    record {
      order = record p.order {
        order_state_id = new_state r.new_order_state_id p.order.order_state_id;
      };
      plan = record p.plan { state_id = new_state r.new_plan_state_id p.plan.state_id };
    }

-- What the matrix asks of an order in a plan of each state; nothing for Fail and unknown states.
abbrev pub agrees : Option ℕ → Option ℕ → Bool
agrees plan order =
    if id_is plan PlanStateId.completed
    then id_is order OrderStateId.completed
    else if id_is plan PlanStateId.processing
    then id_is order OrderStateId.processing
    else if id_is plan PlanStateId.ready
    then id_is order OrderStateId.ready
    else if id_is plan PlanStateId.opened
    then not (id_is order OrderStateId.processing) && not (id_is order OrderStateId.completed)
    else true

abbrev pub Agrees : Pair → Type 0
Agrees p = agrees p.plan.state_id p.order.order_state_id ≡ true

-- From any states of order and plan, known or not, two applications of the rules lead to states
-- that agree.
pub move-move-Agrees : (now : ℕ) (p : Pair) → Agrees (move now (move now p))
unfolding move compute_destination_move_result
move-move-Agrees now p = ground arith

-- Where the states agree, the rules change nothing; where the rules change nothing, they agree.
pub move-eq-self_iff : (now : ℕ) (p : Pair) → (move now p ≡ p) ↔ Agrees p
unfolding move compute_destination_move_result
move-eq-self_iff now p = (λ e. ground arith, λ h. ground arith)

-- A case is asked for exactly when an order in Processing meets a plan in Ready; exactly then the
-- order becomes Fail, and exactly then the case has a text.
pub case_iff :
    (order : Order) (plan : Plan) (now : ℕ)
    → let r = compute_destination_move_result order plan now in
      let meets =
        (plan.state_id ≡ some PlanStateId.ready)
        × (order.order_state_id ≡ some OrderStateId.processing) in
      ((r.should_create_case ≡ true) ↔ meets)
      × ((r.new_order_state_id ≡ some OrderStateId.fail) ↔ meets)
      × ((r.case_predefined_text ≢ none) ↔ meets)
unfolding compute_destination_move_result
case_iff order plan now = (
  (λ e. ground arith, λ h. ground arith),
  (λ e. ground arith, λ h. ground arith),
  (λ e. ground arith, λ h. ground arith),
)
