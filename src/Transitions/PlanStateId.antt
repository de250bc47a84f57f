-- ===== src/Transitions/PlanStateId.antt =====
-- The class `PlanStateId` of
-- Delivery_app_BK/services/domain/route_operations/plan/plan_states.py
use next_mark_backend_v.Prelude.{ℕ}

abbrev pub opened : ℕ
opened = 1

abbrev pub ready : ℕ
ready = 2

abbrev pub processing : ℕ
processing = 3

abbrev pub completed : ℕ
completed = 4

abbrev pub fail : ℕ
fail = 5
