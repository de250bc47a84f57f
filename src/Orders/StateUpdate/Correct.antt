-- ===== src/Orders/StateUpdate/Correct.antt =====
-- A successful request by ids leaves every requested order in the requested state.
use next_mark_backend_v.Prelude.{
  ℕ, ◌≡◌, refl, sym, subst, ◌∙◌, ap, true, inl, inr, Option, some, List, [], ◌∷◌, ◌==◌, arith,
  Bool-cases,
}
use next_mark_backend_v.Prelude.Sorting.{All}
use next_mark_backend_v.Result.{Result, ok, err, >>=-eq-ok}
use next_mark_backend_v.Team.{Context}
use next_mark_backend_v.Transitions.Model.{OrderRow, OrderNote, Db, Names}
use next_mark_backend_v.Transitions.Cascade.{contains}
use next_mark_backend_v.Transitions.Cascade.Orders.{orders-cascade}
use next_mark_backend_v.Orders.Resolve.{
  ids, find_order, pick_order, pick_orders, dedupe_ids, resolve_orders, resolve_orders_by_ids,
}
use next_mark_backend_v.Orders.StateUpdate.{
  OrderState, States, Incoming, Outcome, transition_orders, finish, finish_changed, names_of,
  get_state, extract_incoming_order_note, parse_failure_note_payload, apply_orders_state_transition,
}
use next_mark_backend_v.Orders.StateUpdate.Effect.{
  InState, Ready, rows_after, find_order-id, transition-InState,
}

-- What `pick_orders` returns: the rows of the ids, in order.
abbrev Picked : List OrderRow → List ℕ → List OrderRow → Type 0
Picked orders [] [] = Unit
Picked orders [] (o ∷ os) = ⊥
Picked orders (i ∷ is) [] = ⊥
Picked orders (i ∷ is) (o ∷ os) = (find_order i orders ≡ some o) × Picked orders is os

pick_order-found :
    (ctx : Context) (orders : List OrderRow) (i : ℕ) (o : OrderRow)
    → pick_order ctx orders i ≡ ok o
    → find_order i orders ≡ some o
unfolding pick_order
pick_order-found ctx orders i o e = ground arith

pick_orders-Picked :
    (ctx : Context) (orders : List OrderRow) (is : List ℕ) (os : List OrderRow)
    → pick_orders ctx orders is ≡ ok os
    → Picked orders is os
unfolding pick_orders
pick_orders-Picked ctx orders [] [] e = tt
pick_orders-Picked ctx orders [] (o ∷ os) e = cc
pick_orders-Picked ctx orders (i ∷ is) os e =
    let (o, one, more) = >>=-eq-ok (pick_order ctx orders i) _ e in
    let (rest, picked, same) = >>=-eq-ok (pick_orders ctx orders is) _ more in
    go os o rest (pick_order-found ctx orders i o one)
      (pick_orders-Picked ctx orders is rest picked) same
  where
    go :
        (os : List OrderRow) (o : OrderRow) (rest : List OrderRow)
        → find_order i orders ≡ some o
        → Picked orders is rest
        → ◌≡◌ {A = Result (List OrderRow)} (ok (o ∷ rest)) (ok os)
        → Picked orders (i ∷ is) os
    go [] o rest f p same = cc
    go (q ∷ qs) o rest f p same = (f ∙ cc, subst (Picked orders is) (cc) p)

module _ (P : ℕ → Type 0) where
  contains-All : (i : ℕ) (is : List ℕ) → contains i is ≡ true → All P is → P i
  unfolding contains
  contains-All i [] e h = cc
  contains-All i (j ∷ is) e h = elim (Bool-cases (j == i)) [
    | inl same ↦ let at : j ≡ i = ground arith in subst P at h.0
    | inr other ↦ contains-All i is (rw other at e) h.1
  ]

  dedupe_ids-All : (is seen : List ℕ) → All P seen → All P (dedupe_ids seen is) → All P is
  unfolding dedupe_ids
  dedupe_ids-All [] seen hs h = tt
  dedupe_ids-All (i ∷ is) seen hs h = elim (Bool-cases (contains i seen)) [
    | inl old ↦ (contains-All i seen old hs, dedupe_ids-All is seen hs (rw old at h))
    | inr new ↦
        let h' : All P (i ∷ dedupe_ids (i ∷ seen) is) = rw new at h in
        (h'.0, dedupe_ids-All is (i ∷ seen) (h'.0, hs) h'.1)
  ]

module _ (st : OrderState) (failure_note : Option OrderNote) (orders : List OrderRow) where
  Picked-Ready :
      (is : List ℕ) (os : List OrderRow)
      → Picked orders is os
      → All (Ready st failure_note orders) os
  Picked-Ready [] [] h = tt
  Picked-Ready [] (o ∷ os) h = absurd h
  Picked-Ready (i ∷ is) [] h = absurd h
  Picked-Ready (i ∷ is) (o ∷ os) h = (
    inl (ap (λ k. find_order k orders) (find_order-id i orders o h.0) ∙ h.0),
    Picked-Ready is os h.1,
  )

  Picked-InState :
      (rows : List OrderRow) (is : List ℕ) (os : List OrderRow)
      → Picked orders is os
      → All (λ o. InState o.id st.id rows) os
      → All (λ i. InState i st.id rows) is
  Picked-InState rows [] os p h = tt
  Picked-InState rows (i ∷ is) [] p h = absurd p
  Picked-InState rows (i ∷ is) (o ∷ os) p h =
      (rw (← find_order-id i orders o p.0) h.0, Picked-InState rows is os p.1 h.1)

  rows_after-unchanged :
      (os rows : List OrderRow)
      → (transition_orders st failure_note rows os).changed ≡ []
      → rows_after st failure_note rows os ≡ rows
  unfolding transition_orders
  rows_after-unchanged [] rows e = refl
  rows_after-unchanged (o ∷ os) rows e = ground (arith, rows_after-unchanged os rows)

orders-finish :
    (names : Names) (db : Db) (rows changed : List OrderRow)
    → (changed ≡ [] → rows ≡ db.orders)
    → (finish_changed names db rows changed).orders ≡ rows
unfolding finish_changed
orders-finish names db rows [] h = sym (h refl)
orders-finish names db rows (o ∷ os) h = orders-cascade names (o ∷ os) (record db { orders = rows })

resolve_orders_by_ids-Picked :
    (ctx : Context) (orders : List OrderRow) (is : List ℕ) (os : List OrderRow)
    → resolve_orders_by_ids ctx orders is ≡ ok os
    → Picked orders (dedupe_ids [] is) os
unfolding resolve_orders_by_ids
resolve_orders_by_ids-Picked ctx orders is os e =
    let (_, _, picked) = >>=-eq-ok _ (λ _. pick_orders ctx orders (dedupe_ids [] is)) e in
    pick_orders-Picked ctx orders (dedupe_ids [] is) os picked

get_state-found :
    (ctx : Context) (states : States) (i : ℕ) (st : OrderState)
    → get_state ctx states i ≡ ok st
    → states i ≡ some st
unfolding get_state
get_state-found ctx states i st e = ground arith

resolved-InState :
    (ctx : Context) (st : OrderState) (failure_note : Option OrderNote) (orders : List OrderRow)
    (is : List ℕ) (os : List OrderRow)
    → resolve_orders ctx orders (ids is) ≡ ok os
    → All (λ i. InState i st.id (rows_after st failure_note orders os)) is
unfolding resolve_orders
resolved-InState ctx st failure_note orders [] os e = tt
resolved-InState ctx st failure_note orders (i ∷ is) os e =
    let picked = resolve_orders_by_ids-Picked ctx orders (i ∷ is) os e in
    let rows = rows_after st failure_note orders os in
    dedupe_ids-All (λ j. InState j st.id rows) (i ∷ is) [] tt
      (Picked-InState st failure_note orders rows (dedupe_ids [] (i ∷ is)) os picked (
        transition-InState st failure_note os orders
          (Picked-Ready st failure_note orders (dedupe_ids [] (i ∷ is)) os picked)))

abbrev orders_of_result : Result Outcome → List OrderRow → List OrderRow
orders_of_result (ok r) d = r.db.orders
orders_of_result (err e) d = d

-- A request for order ids that succeeds, with a note or without, leaves every requested order in
-- the table and in the state that was asked for.
pub apply-InState :
    (ctx : Context) (states : States) (incoming : Incoming) (now : ℕ) (db : Db) (order_ids : List ℕ)
    (state_id : ℕ) (result : Outcome)
    → apply_orders_state_transition ctx states incoming now db (ids order_ids) state_id ≡ ok result
    → (st : OrderState) × (states state_id ≡ some st)
      × All (λ i. InState i st.id result.db.orders) order_ids
unfolding apply_orders_state_transition finish
apply-InState ctx states incoming now db order_ids state_id result e =
    let (st, known, e₁) = >>=-eq-ok (get_state ctx states state_id) _ e in
    let (failure_note, _, e₂) =
      >>=-eq-ok (parse_failure_note_payload (extract_incoming_order_note incoming) now) _ e₁ in
    let (os, resolved, e₃) = >>=-eq-ok (resolve_orders ctx db.orders (ids order_ids)) _ e₂ in
    let final : (finish (names_of states) db
          (transition_orders st failure_note db.orders os)).db.orders
        ≡ rows_after st failure_note db.orders os =
      orders-finish (names_of states) db (rows_after st failure_note db.orders os)
        (transition_orders st failure_note db.orders os).changed
        (rows_after-unchanged st failure_note db.orders os db.orders) in
    (
      st,
      get_state-found ctx states state_id st known,
      subst (λ rows. All (λ i. InState i st.id rows) order_ids)
          (sym final ∙ ap (λ (r : Result Outcome). orders_of_result r db.orders) e₃)
          (resolved-InState ctx st failure_note db.orders order_ids os resolved),
    )
