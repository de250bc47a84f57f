-- ===== src/Orders/PlanChange/Heritage.antt =====
-- What a plan does to the states of the orders that are moved into it, and they to its state
-- (`_apply_move_state_heritage` and `_create_move_case` of
-- Delivery_app_BK/services/commands/order/update_order_route_plan.py).
pub mod Settled
use Prim.Native.String.{◌++◌}
use next_mark_backend_v.Prelude.{
  ℕ, String, Bool, true, false, Option, none, some, List, [], ◌∷◌, ◌==◌, str_eq, if◌then◌else◌,
}
use next_mark_backend_v.Prelude.Rows.{add}
use next_mark_backend_v.Prelude.Text.{text_or}
use next_mark_backend_v.Moment.{Moment}
use next_mark_backend_v.Transitions.Moves
use next_mark_backend_v.Transitions.Moves.{OrderMoveResult, compute_destination_move_result}
use next_mark_backend_v.Transitions.Model.{OrderRow, RouteGroup, RoutePlan, Db, Names}
use next_mark_backend_v.Transitions.Counts.{
  update_group, with_counts, recompute_route_group_order_counts, recompute_plan_order_counts,
}
use next_mark_backend_v.Transitions.GroupState.{maybe_sync_route_group_state}
use next_mark_backend_v.Transitions.PlanState.{apply_plan_state, maybe_auto_complete_plan}
use next_mark_backend_v.Transitions.Cascade.{find_plan, update_plan, sync_plans}
use next_mark_backend_v.Orders.Resolve.{find_order}
use next_mark_backend_v.Orders.StateUpdate.{write_order}
use next_mark_backend_v.Orders.PlanChange.Destination.{Changed}

-- The columns that the rules read beside those of `Db`, Python's `str.strip`, the clock and the
-- message of the request.
pub record Details : Type 0 where
  pub reference_number : ℕ → Option String
  pub plan_label : Option String
  pub plan_end_date : Option Moment
  pub strip : String → String
  pub now : ℕ
  pub case_message : Option String

-- An open case with the label "Order moved to ready plan", and the message of its chat, if it has
-- one.
pub record MoveCase : Type 0 where
  pub order_id : ℕ
  pub team_id : Option ℕ
  pub message : Option String

abbrev pub or_empty : Option String → String
or_empty none = ""
or_empty (some s) = s

unfoldable pub case_text : Details → OrderMoveResult → String
case_text details result =
    let predefined = or_empty result.case_predefined_text in
    let user_message = or_empty details.case_message in
    if str_eq user_message ""
    then predefined
    else details.strip (predefined ++ ("\n\n" ++ user_message))

unfoldable pub create_move_case : Details → OrderRow → OrderMoveResult → MoveCase
unfolding case_text
create_move_case details order result =
    let full_text = case_text details result in
    record {
      order_id = order.id;
      team_id = order.team_id;
      message = if str_eq full_text "" then none else some full_text;
    }

abbrev pub rule_order : Details → OrderRow → Moves.Order
rule_order details order = record {
  id = order.id;
  order_state_id = order.order_state_id;
  reference_number = details.reference_number order.id;
}

abbrev pub rule_plan : Details → RoutePlan → Moves.Plan
rule_plan details plan = record {
  id = plan.id;
  state_id = plan.state_id;
  label = details.plan_label;
  end_date = details.plan_end_date;
}

abbrev pub with_order_state : Option ℕ → OrderRow → OrderRow
with_order_state none order = order
with_order_state (some s) order = record order { order_state_id = some s }

abbrev pub with_plan_state : Option ℕ → RoutePlan → RoutePlan
with_plan_state none plan = plan
with_plan_state (some s) plan = (apply_plan_state plan s).0

-- The body of the loop over the moved orders.
unfoldable pub inherit_state :
    Details → OrderRow → RoutePlan → Db × List MoveCase → Db × List MoveCase
unfolding create_move_case write_order update_plan apply_plan_state
inherit_state details order plan (db, cases) =
    let result =
      compute_destination_move_result (rule_order details order) (rule_plan details plan)
        details.now in
    (
      record db {
        orders = write_order (with_order_state result.new_order_state_id order) db.orders;
        plans = update_plan plan.id (with_plan_state result.new_plan_state_id) db.plans;
      },
      if result.should_create_case
          then add (create_move_case details order result) cases
          else cases,
    )

-- The order and the plan as they are by then, where the tables hold them.
unfoldable pub inherit_found :
    Details → Option OrderRow → Option RoutePlan → Db × List MoveCase → Db × List MoveCase
unfolding inherit_state
inherit_found details none plan state = state
inherit_found details (some order) none state = state
inherit_found details (some order) (some plan) state = inherit_state details order plan state

unfoldable pub inherit_states : Details → ℕ → List ℕ → Db × List MoveCase → Db × List MoveCase
unfolding inherit_found find_order find_plan
inherit_states details new_plan_id [] state = state
inherit_states details new_plan_id (i ∷ order_ids) state =
    inherit_states details new_plan_id order_ids (
      inherit_found details (find_order i state.0.orders) (find_plan new_plan_id state.0.plans)
        state)

abbrev pub recount_found : Names → Option RoutePlan → Db → Db
recount_found names none db = db
recount_found names (some plan) db = recompute_plan_order_counts names plan db

unfoldable pub recount_plans : Names → List ℕ → Db → Db
unfolding find_plan
recount_plans names [] db = db
recount_plans names (i ∷ plan_ids) db =
    recount_plans names plan_ids (recount_found names (find_plan i db.plans) db)

unfoldable pub recount_groups : Names → List ℕ → Db → Db
unfolding recompute_route_group_order_counts
recount_groups names [] db = db
recount_groups names (i ∷ group_ids) db =
    recount_groups names group_ids (recompute_route_group_order_counts names i db)

unfoldable pub auto_complete_plans : List ℕ → Db → Db
unfolding update_plan maybe_auto_complete_plan
auto_complete_plans [] db = db
auto_complete_plans (i ∷ plan_ids) db =
    auto_complete_plans plan_ids
      (record db { plans = update_plan i (λ p. (maybe_auto_complete_plan db.groups p).0) db.plans })

unfoldable pub sync_group_states : List ℕ → Db → Db
unfolding update_group maybe_sync_route_group_state
sync_group_states [] db = db
sync_group_states (i ∷ group_ids) db =
    sync_group_states group_ids
      (record db { groups = update_group i (λ g. (maybe_sync_route_group_state g []).0) db.groups })

-- The ids are those of the moved orders, of the plans to recompute and of the affected groups.
unfoldable pub apply_move_state_heritage :
    Names → Details → ℕ → List ℕ → List ℕ → List ℕ → Db → Db × List MoveCase
unfolding inherit_states recount_plans recount_groups auto_complete_plans sync_group_states
    sync_plans
apply_move_state_heritage names details new_plan_id order_ids plan_ids group_ids db =
    let inherited = inherit_states details new_plan_id order_ids (db, []) in
    let counted = recount_groups names group_ids (recount_plans names plan_ids inherited.0) in
    (
      sync_plans plan_ids (sync_group_states group_ids (auto_complete_plans plan_ids counted)),
      inherited.1,
    )

-- The ids of the groups that orders leave and enter.
unfoldable pub affected_group_ids : List Changed → List (ℕ × ℕ) → List ℕ
affected_group_ids [] [] = []
affected_group_ids [] (d ∷ destinations) = d.1 ∷ affected_group_ids [] destinations
affected_group_ids (c ∷ changed) destinations =
    let rest = affected_group_ids changed destinations in
    elim c.old_route_group_id [ none ↦ rest | some i ↦ i ∷ rest ]
