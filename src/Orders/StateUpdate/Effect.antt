-- ===== src/Orders/StateUpdate/Effect.antt =====
-- What a successful state update leaves in the tables.
use next_mark_backend_v.Prelude.{
  ℕ, ◌≡◌, refl, sym, subst, ◌∙◌, true, false, ◌⊎◌, inl, inr, Option, none, some, List, [], ◌∷◌,
  ◌==◌, if◌then◌else◌, arith, Bool-cases,
}
use next_mark_backend_v.Prelude.Sorting.{All, All-map}
use next_mark_backend_v.Transitions.Ids.{id_is}
use next_mark_backend_v.Transitions.Model.{OrderRow, OrderNote}
use next_mark_backend_v.Orders.Resolve.{find_order}
use next_mark_backend_v.Orders.StateUpdate.{OrderState, with_state, write_order, transition_orders}

-- The table has a row for the order, and it is in the state.
abbrev pub InState : ℕ → ℕ → List OrderRow → Type 0
InState i s rows = (o : OrderRow) × (find_order i rows ≡ some o) × (o.order_state_id ≡ some s)

pub find_order-id :
    (i : ℕ) (os : List OrderRow) (o : OrderRow) → find_order i os ≡ some o → o.id ≡ i
unfolding find_order
find_order-id i [] o e = cc
find_order-id i (p ∷ os) o e = ground (arith, find_order-id i os o)

with_state-id :
    (st : OrderState) (failure_note : Option OrderNote) (o : OrderRow)
    → (with_state st failure_note o).id ≡ o.id
unfolding with_state
with_state-id st none o = refl
with_state-id st (some n) o = ground arith

with_state-state :
    (st : OrderState) (failure_note : Option OrderNote) (o : OrderRow)
    → (with_state st failure_note o).order_state_id ≡ some st.id
unfolding with_state
with_state-state st none o = refl
with_state-state st (some n) o = ground arith

-- A row that is written is found again; other rows are as they were.
find_order-write_order :
    (i : ℕ) (new old : OrderRow) (rows : List OrderRow)
    → find_order i rows ≡ some old
    → find_order i (write_order new rows) ≡ (if new.id == i then some new else some old)
unfolding find_order write_order
find_order-write_order i new old [] e = cc
find_order-write_order i new old (o ∷ rows) e =
    ground (arith, find_order-write_order i new old rows)

module _ (st : OrderState) (failure_note : Option OrderNote) where
  write-InState :
      (i : ℕ) (o : OrderRow) (rows : List OrderRow)
      → InState i st.id rows
      → InState i st.id (write_order (with_state st failure_note o) rows)
  write-InState i o rows (r, found, state) =
      let at = find_order-write_order i (with_state st failure_note o) r rows found in
      elim (Bool-cases ((with_state st failure_note o).id == i)) [
        | inl same ↦
            (with_state st failure_note o, at ∙ rw same, with_state-state st failure_note o)
        | inr other ↦ (r, at ∙ rw other, state)
      ]

  -- The order's row is in the table as the loop holds it, or in the target state already.
  abbrev pub Ready : List OrderRow → OrderRow → Type 0
  Ready rows o = (find_order o.id rows ≡ some o) ⊎ InState o.id st.id rows

  write-Ready :
      (o p : OrderRow) (rows : List OrderRow)
      → Ready rows p
      → Ready (write_order (with_state st failure_note o) rows) p
  write-Ready o p rows (inr h) = inr (write-InState p.id o rows h)
  write-Ready o p rows (inl found) =
      let at = find_order-write_order p.id (with_state st failure_note o) p rows found in
      elim (Bool-cases ((with_state st failure_note o).id == p.id)) [
        | inl same ↦
            inr (with_state st failure_note o, at ∙ rw same, with_state-state st failure_note o)
        | inr other ↦ inl (at ∙ rw other)
      ]

  write_self :
      (o : OrderRow) (rows : List OrderRow)
      → Ready rows o
      → InState o.id st.id (write_order (with_state st failure_note o) rows)
  write_self o rows (inr h) = write-InState o.id o rows h
  write_self o rows (inl found) = (
    with_state st failure_note o,
    find_order-write_order o.id (with_state st failure_note o) o rows found
        ∙ ground (arith, with_state-id st failure_note o),
    with_state-state st failure_note o,
  )

  abbrev pub rows_after : List OrderRow → List OrderRow → List OrderRow
  rows_after rows os = (transition_orders st failure_note rows os).rows

  rows_after-same :
      (o : OrderRow) (rows os : List OrderRow)
      → id_is o.order_state_id st.id ≡ true
      → rows_after rows (o ∷ os) ≡ rows_after rows os
  unfolding transition_orders
  rows_after-same o rows os h = rw (h, rows_after)

  rows_after-other :
      (o : OrderRow) (rows os : List OrderRow)
      → id_is o.order_state_id st.id ≡ false
      → rows_after rows (o ∷ os) ≡ rows_after (write_order (with_state st failure_note o) rows) os
  unfolding transition_orders
  rows_after-other o rows os h = rw (h, rows_after)

  transition-keeps :
      (i : ℕ) (os rows : List OrderRow)
      → InState i st.id rows
      → InState i st.id (rows_after rows os)
  unfolding transition_orders
  transition-keeps i [] rows h = h
  transition-keeps i (o ∷ os) rows h = elim (Bool-cases (id_is o.order_state_id st.id)) [
    | inl same ↦ rw (rows_after-same o rows os same) (transition-keeps i os rows h)
    | inr other ↦ rw (rows_after-other o rows os other) (
        transition-keeps i os (write_order (with_state st failure_note o) rows)
          (write-InState i o rows h))
  ]

  state-of : (o : OrderRow) → id_is o.order_state_id st.id ≡ true → o.order_state_id ≡ some st.id
  state-of o h = ground arith

  here-InState :
      (o : OrderRow) (rows : List OrderRow)
      → id_is o.order_state_id st.id ≡ true
      → Ready rows o
      → InState o.id st.id rows
  here-InState o rows same (inl found) = (o, found, state-of o same)
  here-InState o rows same (inr h) = h

  pub transition-InState :
      (os rows : List OrderRow)
      → All (Ready rows) os
      → All (λ o. InState o.id st.id (rows_after rows os)) os
  transition-InState [] rows h = tt
  transition-InState (o ∷ os) rows h = elim (Bool-cases (id_is o.order_state_id st.id)) [
    | inl same ↦ subst AllIn (sym (rows_after-same o rows os same)) (
      transition-keeps o.id os rows (here-InState o rows same h.0),
      transition-InState os rows h.1,
    )
    | inr other ↦
        let next = write_order (with_state st failure_note o) rows in
        subst AllIn (sym (rows_after-other o rows os other)) (
          transition-keeps o.id os next (write_self o rows h.0),
          transition-InState os next (All-map os (λ p. write-Ready o p rows) h.1),
        )
  ]
    where
      AllIn : List OrderRow → Type 0
      AllIn final = All (λ p. InState p.id st.id final) (o ∷ os)
