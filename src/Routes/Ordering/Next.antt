-- ===== src/Routes/Ordering/Next.antt =====
-- The order of a route's next stop.
use next_mark_backend_v.Prelude.{
  ℕ, ◌+◌, ◌≤◌, ◌<◌, ◌≡◌, ◌⊎◌, refl, Bool, true, false, Option, none, some, List, [], ◌∷◌, leb,
  arith, inl, inr, Option-cases, sym, ap, ◌∙◌,
}
use next_mark_backend_v.Prelude.Sorting.{
  All, All-map, Any, sort, sort-All_inv, sort-Any_inv, sort-IsSorted, IsSorted,
}
use next_mark_backend_v.Routes.Stop.{RouteStop, or_zero, position_of}
use next_mark_backend_v.Routes.Ordering.{
  last_first, last_stop, first_row, current_max, get_next_route_stop_order,
}

-- What PostgreSQL documents of `ORDER BY ... DESC`: numbers from the largest to the smallest, and
-- NULL as if it were larger than every number.
pub record Descends (descends : Option ℕ → Option ℕ → Bool) : Type 0 where
  pub numbers : (a b : ℕ) → descends (some a) (some b) ≡ leb b a
  pub null_first : (b : Option ℕ) → descends none b ≡ true
  pub null_last : (a : ℕ) → descends (some a) none ≡ false

-- A stop without an order makes the next order 1; where every stop has one, the next is one more
-- than the largest.
abbrev pub IsNext : List RouteStop → ℕ → Type 0
IsNext stops next =
    (Any (λ s. s.stop_order ≡ none) stops × (next ≡ 1))
    ⊎ (All (λ s. (s.stop_order ≡ some (position_of s)) × (position_of s < next)) stops
        × (((stops ≡ []) × (next ≡ 1)) ⊎ Any (λ s. position_of s + 1 ≡ next) stops))

module _ (descends : Option ℕ → Option ℕ → Bool) (order : Descends descends) where
  descends_total : (x y : Option ℕ) → descends x y ≡ false → descends y x ≡ true
  descends_total none y h = absurd (cc (order.null_first y, h))
  descends_total (some a) none h = order.null_first (some a)
  descends_total (some a) (some b) h = ground (arith, order.numbers a b, order.numbers b a)

  descends_trans :
      (x y z : Option ℕ) → descends x y ≡ true → descends y z ≡ true → descends x z ≡ true
  descends_trans none y z h k = order.null_first z
  descends_trans (some a) none z h k = absurd (cc (order.null_last a, h))
  descends_trans (some a) (some b) none h k = absurd (cc (order.null_last b, k))
  descends_trans (some a) (some b) (some c) h k =
      ground (arith, order.numbers a b, order.numbers b c, order.numbers a c)

  last_first_total :
      (a b : RouteStop) → last_first descends a b ≡ false → last_first descends b a ≡ true
  unfolding last_first
  last_first_total a b h =
      ground
        (arith, descends_total a.stop_order b.stop_order, descends_total b.stop_order a.stop_order)

  last_first_trans :
      (a b c : RouteStop)
      → last_first descends a b ≡ true
      → last_first descends b c ≡ true
      → last_first descends a c ≡ true
  unfolding last_first
  last_first_trans a b c h k = ground (
    arith,
    descends_trans a.stop_order b.stop_order c.stop_order,
    descends_trans b.stop_order c.stop_order a.stop_order,
    descends_trans c.stop_order a.stop_order b.stop_order,
  )

  descends-some :
      (k : ℕ) (y : Option ℕ) → descends (some k) y ≡ true → (y ≡ some (or_zero y)) × (or_zero y ≤ k)
  descends-some k none h = absurd (cc (order.null_last k, h))
  descends-some k (some b) h = (refl, ground (arith, order.numbers k b))

  -- What follows a stop with an order has an order, and no larger one.
  last_first-some :
      (k : ℕ) (a b : RouteStop)
      → a.stop_order ≡ some k
      → last_first descends a b ≡ true
      → (b.stop_order ≡ some (position_of b)) × (position_of b < k + 1)
  unfolding last_first
  last_first-some k a b e h =
      let first : descends (some k) b.stop_order ≡ true = ground (arith, e) in
      let bound = descends-some k b.stop_order first in (bound.0, omega (arith, bound.1))

  sort-nil : (stops : List RouteStop) → sort (last_first descends) stops ≡ [] → stops ≡ []
  sort-nil [] e = refl
  sort-nil (s ∷ stops) e =
      absurd (sort-All_inv (last_first descends) (λ r. ⊥) (s ∷ stops) (rw e tt)).0

  head-IsNext :
      (stops sorted : List RouteStop)
      → sort (last_first descends) stops ≡ sorted
      → IsSorted (last_first descends) sorted
      → IsNext stops (current_max (first_row sorted) + 1)
  head-IsNext stops [] e h =
      let none_there = sort-nil stops e in inr (rw none_there tt, inl (none_there, refl))
  head-IsNext stops (s ∷ rest) e h = elim (Option-cases s.stop_order) [
    | inl missing ↦
        let there : Any (λ r. r.stop_order ≡ none) (s ∷ rest) = inl missing in
        inl (
          sort-Any_inv (last_first descends) (λ r. r.stop_order ≡ none) stops (rw e there),
          rw missing refl,
        )
    | inr (k, given) ↦
        let value = ap or_zero given in
        let own : s.stop_order ≡ some (position_of s) = given ∙ ap some (sym value) in
        let follows : All
            (λ r. (r.stop_order ≡ some (position_of r)) × (position_of r < position_of s + 1))
            rest =
          All-map rest
            (λ r le.
              let bound = last_first-some k s r given le in
              let place : position_of r < position_of s + 1 = omega (arith, bound.1, value) in
              (bound.0, place))
            h.0 in
        let largest : Any (λ r. position_of r + 1 ≡ position_of s + 1) (s ∷ rest) = inl refl in
        inr (
          sort-All_inv (last_first descends)
              (λ r. (r.stop_order ≡ some (position_of r)) × (position_of r < position_of s + 1))
              stops (rw e ((own, omega arith), follows)),
          inr (
              sort-Any_inv (last_first descends) (λ r. position_of r + 1 ≡ position_of s + 1) stops
                (rw e largest)),
        )
  ]

  -- The next order of a route: one more than the largest order where every stop has one, 1 for a
  -- route with no stops; but 1, whatever the other orders are, where some stop has none.
  pub get_next_route_stop_order-IsNext :
      (stops : List RouteStop) → IsNext stops (get_next_route_stop_order descends stops)
  unfolding get_next_route_stop_order last_stop
  get_next_route_stop_order-IsNext stops =
      head-IsNext stops (sort (last_first descends) stops) refl
        (sort-IsSorted (last_first descends) last_first_total last_first_trans stops)
