-- ===== src/Transitions/Moves.antt =====
-- Delivery_app_BK/services/domain/state_transitions/order_move_rules.py: the state-heritage matrix
-- for an order that is moved into a plan.
pub mod Settling
use Prim.Native.String.{◌++◌}
use next_mark_backend_v.Prelude.{
  ℕ, String, Bool, true, false, Option, none, some, ltb, if◌then◌else◌,
}
use next_mark_backend_v.Prelude.Text.{decimal, text_or}
use next_mark_backend_v.Moment.{Moment, utc}
use next_mark_backend_v.Transitions.Ids.{id_is}
use next_mark_backend_v.Transitions.OrderStateId
use next_mark_backend_v.Transitions.PlanStateId

-- The fields of `Order` and `RoutePlan` that the rules read.
pub record Order : Type 0 where
  pub id : ℕ
  pub order_state_id : Option ℕ
  pub reference_number : Option String

pub record Plan : Type 0 where
  pub id : ℕ
  pub state_id : Option ℕ
  pub label : Option String
  pub end_date : Option Moment

-- `none` leaves the state as it is.
pub record OrderMoveResult : Type 0 where
  pub new_order_state_id : Option ℕ
  pub new_plan_state_id : Option ℕ
  pub should_create_case : Bool
  pub case_predefined_text : Option String

abbrev pub no_change : OrderMoveResult
no_change = record {
  new_order_state_id = none;
  new_plan_state_id = none;
  should_create_case = false;
  case_predefined_text = none;
}

abbrev pub order_to : ℕ → OrderMoveResult
order_to s = record no_change { new_order_state_id = some s }

abbrev pub plan_to : ℕ → OrderMoveResult
plan_to s = record no_change { new_plan_state_id = some s }

is_in_past : Option Moment → ℕ → Bool
unfolding utc
is_in_past none now = false
is_in_past (some dt) now = ltb (utc dt) now

unfoldable pub build_processing_order_moved_to_ready_plan_text : Order → Plan → String
unfolding decimal text_or
build_processing_order_moved_to_ready_plan_text order plan =
    let order_ref = text_or order.reference_number ("#" ++ decimal order.id) in
    let plan_label = text_or plan.label ("Plan #" ++ decimal plan.id) in
    "Order "
    ++ (order_ref
        ++ (" was moved into plan '"
            ++ (plan_label
                ++ ("' which is marked as Ready for Delivery. "
                    ++ ("Because the order was in Processing state it has been marked as Failed "
                        ++ "and the plan has been reset to Open.")))))

unfoldable pub compute_destination_move_result : Order → Plan → ℕ → OrderMoveResult
unfolding is_in_past
compute_destination_move_result order destination_plan now =
    let plan_state_id = destination_plan.state_id in
    let order_state_id = order.order_state_id in
    let is_order_completed = id_is order_state_id OrderStateId.completed in
    if id_is plan_state_id PlanStateId.completed
    then (if is_order_completed
        then no_change
        else if is_in_past destination_plan.end_date now
        then order_to OrderStateId.completed
        else plan_to PlanStateId.processing)
    else if id_is plan_state_id PlanStateId.processing
    then order_to OrderStateId.processing
    else if id_is plan_state_id PlanStateId.opened
    then (if is_order_completed
        then order_to OrderStateId.confirmed
        else if id_is order_state_id OrderStateId.processing
        then order_to OrderStateId.confirmed
        else no_change)
    else if id_is plan_state_id PlanStateId.ready
    then (if id_is order_state_id OrderStateId.ready
        then no_change
        else if id_is order_state_id OrderStateId.processing
        then record {
          new_order_state_id = some OrderStateId.fail;
          new_plan_state_id = some PlanStateId.opened;
          should_create_case = true;
          case_predefined_text =
              some (build_processing_order_moved_to_ready_plan_text order destination_plan);
        }
        else plan_to PlanStateId.opened)
    else no_change
