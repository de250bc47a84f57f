-- ===== src/Transitions/Model.antt =====
-- The rows that the state engines read and write (Delivery_app_BK/models/tables/order/order.py and
-- Delivery_app_BK/models/tables/route_operations/route_plan), and the names of the order states.
use next_mark_backend_v.Prelude.{ℕ, String, Bool, Option, none, some, List, ◌==◌, if◌then◌else◌}
use next_mark_backend_v.Transitions.OrderStateId

-- An entry of the JSON column `order_notes`.
pub record OrderNote : Type 0 where
  pub note_type : String
  pub content : String
  pub creation_date : ℕ

-- `order_notes` is `none` where the column does not hold a list.
pub record OrderRow : Type 0 where
  pub id : ℕ
  pub team_id : Option ℕ
  pub order_notes : Option (List OrderNote)
  pub order_state_id : Option ℕ
  pub route_plan_id : Option ℕ
  pub route_group_id : Option ℕ

pub record RouteSolution : Type 0 where
  pub id : ℕ
  pub is_selected : Bool

-- The JSON column `order_state_counts`: a dictionary from state names to counts.
abbrev pub StateCounts : Type 0
StateCounts = List (String × ℕ)

pub record RouteGroup : Type 0 where
  pub id : ℕ
  pub route_plan_id : ℕ
  pub state_id : Option ℕ
  pub total_orders : Option ℕ
  pub order_state_counts : Option StateCounts
  pub route_solutions : List RouteSolution

pub record RoutePlan : Type 0 where
  pub id : ℕ
  pub state_id : Option ℕ
  pub plan_type : String

-- The tables inside one transaction. `stop_groups` holds, for each route stop, its order and the
-- route group of its route solution.
pub record Db : Type 0 where
  pub orders : List OrderRow
  pub groups : List RouteGroup
  pub plans : List RoutePlan
  pub stop_groups : List (ℕ × ℕ)

-- The values of the enumeration `OrderState`.
abbrev pub draft_name : String
draft_name = "Draft"

abbrev pub confirmed_name : String
confirmed_name = "Confirmed"

abbrev pub preparing_name : String
preparing_name = "Preparing"

abbrev pub ready_name : String
ready_name = "Ready"

abbrev pub processing_name : String
processing_name = "Processing"

abbrev pub completed_name : String
completed_name = "Completed"

abbrev pub fail_name : String
fail_name = "Fail"

abbrev pub cancelled_name : String
cancelled_name = "Cancelled"

-- The `order_state` table, from ids to names.
abbrev pub Names : Type 0
Names = ℕ → Option String

-- The rows that Delivery_app_BK/services/commands/seed/data/order_states.py puts into that table.
unfoldable pub order_state_seeds : Names
order_state_seeds i =
    if i == OrderStateId.draft
    then some draft_name
    else if i == OrderStateId.confirmed
    then some confirmed_name
    else if i == OrderStateId.preparing
    then some preparing_name
    else if i == OrderStateId.ready
    then some ready_name
    else if i == OrderStateId.processing
    then some processing_name
    else if i == OrderStateId.completed
    then some completed_name
    else if i == OrderStateId.cancelled
    then some cancelled_name
    else if i == OrderStateId.fail
    then some fail_name
    else none
