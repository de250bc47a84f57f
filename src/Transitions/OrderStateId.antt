-- ===== src/Transitions/OrderStateId.antt =====
-- The class `OrderStateId` of Delivery_app_BK/services/domain/order/order_states.py
use next_mark_backend_v.Prelude.{ℕ}

abbrev pub draft : ℕ
draft = 1

abbrev pub confirmed : ℕ
confirmed = 2

abbrev pub preparing : ℕ
preparing = 3

abbrev pub ready : ℕ
ready = 4

abbrev pub processing : ℕ
processing = 5

abbrev pub completed : ℕ
completed = 6

abbrev pub fail : ℕ
fail = 7

abbrev pub cancelled : ℕ
cancelled = 8
