-- ===== src/Transitions/Counts/Agreement.antt =====
-- The two ways to derive a route group's state, from recomputed counters and from the orders
-- themselves, agree.
use next_mark_backend_v.Prelude.{
  ℕ, String, ◌≡◌, refl, sym, ◌∙◌, Bool, true, not, ◌||◌, Option, none, some, List, [], ◌∷◌, map,
  ◌==◌, str_eq, ltb, arith, Bool-cases, inl, inr,
}
use next_mark_backend_v.Prelude.Sorting.{All}
use next_mark_backend_v.Transitions.Ids.{id_is}
use next_mark_backend_v.Transitions.OrderStateId
use next_mark_backend_v.Transitions.Counts.{
  joined_name, count_name, state_counts, total, orders_of, counts_or_none, with_counts,
}
use next_mark_backend_v.Transitions.GroupState.{
  all, select, is_set_of, is_active, key, all_match, derive_from_counts, state_of,
  derive_from_orders, derive_route_group_state,
}
use next_mark_backend_v.Transitions.Model.{
  OrderRow, RouteGroup, StateCounts, order_state_seeds, completed_name, processing_name, ready_name,
  cancelled_name,
}
use next_mark_backend_v.Transitions.Counts.Named.{
  is_set_of-select, AllPositive, bump-AllPositive, HasKnownState, IsNameOf, all-state_counts,
}

count_name-AllPositive :
    (n : Option String) (m : StateCounts) → AllPositive m → AllPositive (count_name n m)
unfolding count_name
count_name-AllPositive none m h = h
count_name-AllPositive (some n) m h = bump-AllPositive n m h

state_counts-AllPositive : (os : List OrderRow) → AllPositive (state_counts order_state_seeds os)
unfolding state_counts
state_counts-AllPositive [] = tt
state_counts-AllPositive (o ∷ os) =
    count_name-AllPositive (joined_name order_state_seeds o) (state_counts order_state_seeds os)
      (state_counts-AllPositive os)

-- With positive counts, `count > 0` drops nothing.
all-positive :
    (q : String × ℕ → Bool) (r : String × ℕ → Bool)
    → ((e : String × ℕ) → ltb 0 e.1 ≡ true → q e ≡ r e)
    → (m : StateCounts) → AllPositive m
    → all q m ≡ all r m
unfolding all
all-positive q r same [] h = refl
all-positive q r same (e ∷ m) h = rw (same e h.0) (rw (all-positive q r same m h.1))

all-cong {ℓ} :
    {A : Type ℓ} (q r : A → Bool) → ((a : A) → q a ≡ r a) → (xs : List A) → all q xs ≡ all r xs
unfolding all
all-cong q r same [] = refl
all-cong q r same (x ∷ xs) = rw (same x) (rw (all-cong q r same xs))

-- Nothing is chosen where the chosen counts add up to zero.
select-total : (m : StateCounts) → total (select is_active m) ≡ 0 → select is_active m ≡ []
unfolding select total
select-total [] h = refl
select-total ((k, c) ∷ m) h = ground (arith, select-total m)

-- One comparison of the ladder, over the counters and over the orders.
module _ (name : String) (id : ℕ)
    (same : (s : ℕ) (n : String) → IsNameOf s n → str_eq n name ≡ (s == id)) where
  abbrev is_cancelled : OrderRow → Bool
  is_cancelled o = not (not (id_is o.order_state_id OrderStateId.cancelled))

  is_set_of-agree :
      (os : List OrderRow)
      → All HasKnownState os
      → is_set_of
          (λ n. str_eq n name)
          (map key (select is_active (state_counts order_state_seeds os)))
        ≡ is_set_of
            (λ s. id_is s id)
            (map state_of (select (λ o. not (id_is o.order_state_id OrderStateId.cancelled)) os))
  is_set_of-agree os h =
      let counts = state_counts order_state_seeds os in
      let positive = state_counts-AllPositive os in
      let none_active : all (λ e. not (is_active e)) counts ≡ all is_cancelled os =
        all-positive _ (λ e. not (not (str_eq (key e) cancelled_name))) (λ e p. ground arith) counts
          positive
        ∙ all-state_counts (λ n. not (not (str_eq n cancelled_name))) is_cancelled
            (λ o s n e is_name. rw e (rw (is_name.cancelled))) os h in
      let all_named : all (λ e. not (is_active e) || str_eq (key e) name) counts
          ≡ all (λ o. is_cancelled o || id_is o.order_state_id id) os =
        all-positive _ (λ e. not (not (str_eq (key e) cancelled_name)) || str_eq (key e) name)
          (λ e p. ground arith) counts positive
        ∙ all-state_counts (λ n. not (not (str_eq n cancelled_name)) || str_eq n name)
            (λ o. is_cancelled o || id_is o.order_state_id id)
            (λ o s n e is_name. rw e (rw (is_name.cancelled) (rw (same s n is_name)))) os h in
      is_set_of-select is_active key (λ n. str_eq n name) counts
      ∙ cc (none_active, all_named)
      ∙ sym (
          is_set_of-select (λ o. not (id_is o.order_state_id OrderStateId.cancelled)) state_of
            (λ s. id_is s id) os)

abbrev by_name : List String → ℕ
by_name =
    all_match (λ n. str_eq n completed_name) (λ n. str_eq n processing_name)
      (λ n. str_eq n ready_name)

derive_from_counts-eq_by_name :
    (m : StateCounts) → derive_from_counts m ≡ by_name (map key (select is_active m))
unfolding derive_from_counts all_match is_set_of
derive_from_counts-eq_by_name m = elim (Bool-cases (total (select is_active m) == 0)) [
  | inl empty ↦ rw empty (rw (select-total m (ground arith)))
  | inr more ↦ rw more
]

derive_from_counts-agree :
    (os : List OrderRow)
    → All HasKnownState os
    → derive_from_counts (state_counts order_state_seeds os) ≡ derive_from_orders os
unfolding derive_from_orders all_match
derive_from_counts-agree os h =
    derive_from_counts-eq_by_name (state_counts order_state_seeds os)
    ∙ rw (is_set_of-agree completed_name OrderStateId.completed (λ s n e. e.completed) os h) (
        rw (is_set_of-agree processing_name OrderStateId.processing (λ s n e. e.processing) os h)
          (rw (is_set_of-agree ready_name OrderStateId.ready (λ s n e. e.ready) os h)))

-- After its counters are recomputed, a group whose orders all have one of the eight seeded states
-- derives, whatever list of orders it is also handed, the state that the fallback derives from its
-- orders in the table.
pub derive-with_counts :
    (g : RouteGroup) (orders stale : List OrderRow)
    → All HasKnownState (orders_of g.id orders)
    → derive_route_group_state (with_counts order_state_seeds orders g) stale
      ≡ derive_from_orders (orders_of g.id orders)
unfolding derive_route_group_state with_counts
derive-with_counts g orders stale h =
    go (state_counts order_state_seeds (orders_of g.id orders))
      (derive_from_counts-agree (orders_of g.id orders) h)
  where
    go :
        (m : StateCounts)
        → derive_from_counts m ≡ derive_from_orders (orders_of g.id orders)
        → derive_route_group_state
            (record g { total_orders = some (total m); order_state_counts = counts_or_none m })
            stale
          ≡ derive_from_orders (orders_of g.id orders)
    go [] e = e
    go (x ∷ m) e = e
