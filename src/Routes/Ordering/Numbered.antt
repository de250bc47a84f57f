-- ===== src/Routes/Ordering/Numbered.antt =====
-- The numbering of a route's stops.
use mathlib.Core.List.{Perm}
use next_mark_backend_v.Prelude.{
  ℕ, suc, ◌<◌, ◌≡◌, refl, sym, ap, true, Option, none, some, List, [], ◌∷◌, arith, Bool-cases, inl,
  inr,
}
use next_mark_backend_v.Prelude.Sorting.{All, sort, sort-perm, IsSorted, sort-eq_of_IsSorted}
use next_mark_backend_v.Transitions.Ids.{id_is}
use next_mark_backend_v.Routes.Stop.{RouteStop}
use next_mark_backend_v.Routes.Ordering.{
  numbered, number_from, stop_le, first_changed, candidate_position,
  normalize_route_solution_stop_ordering,
}

-- The stops numbered from `index` on, whatever their orders were.
unfoldable pub renumbered : ℕ → List RouteStop → List RouteStop
renumbered index [] = []
renumbered index (s ∷ stops) = numbered index s ∷ renumbered (suc index) stops

numbered_self : (index : ℕ) (s : RouteStop) → id_is s.stop_order index ≡ true → numbered index s ≡ s
numbered_self index s e = λ i. record s { stop_order = sym (id_is-eq s.stop_order index e) i }
  where
    id_is-eq : (o : Option ℕ) (k : ℕ) → id_is o k ≡ true → o ≡ some k
    id_is-eq none k e = cc
    id_is-eq (some j) k e = ap some (ground arith)

number_from-stops :
    (index : ℕ) (stops : List RouteStop) (first : Option ℕ)
    → (number_from index first stops).stops ≡ renumbered index stops
unfolding number_from renumbered
number_from-stops index [] first = refl
number_from-stops index (s ∷ stops) first = elim (Bool-cases (id_is s.stop_order index)) [
  | inl e ↦
      rw e (λ i. sym (numbered_self index s e) i ∷ number_from-stops (suc index) stops first i)
  | inr e ↦ rw e (
      ap (λ r. numbered index s ∷ r)
        (number_from-stops (suc index) stops
          (some (first_changed first (candidate_position s.stop_order index)))))
]

number_from-renumbered :
    (index : ℕ) (stops : List RouteStop)
    → number_from index none (renumbered index stops)
      ≡ record { stops = renumbered index stops; changed_stops = []; first_changed_position = none }
unfolding number_from renumbered
number_from-renumbered index [] = refl
number_from-renumbered index (s ∷ stops) = ground (arith, number_from-renumbered (suc index) stops)

renumbered-IsSorted :
    (index : ℕ) (stops : List RouteStop) → IsSorted stop_le (renumbered index stops)
unfolding renumbered stop_le
renumbered-IsSorted index [] = tt
renumbered-IsSorted index (s ∷ stops) =
    (first_le index (suc index) s stops (omega arith), renumbered-IsSorted (suc index) stops)
  where
    first_le :
        (i j : ℕ) (s : RouteStop) (stops : List RouteStop)
        → i < j
        → All (λ r. stop_le (numbered i s) r ≡ true) (renumbered j stops)
    first_le i j s [] lt = tt
    first_le i j s (r ∷ stops) lt = (ground arith, first_le i (suc j) s stops (omega arith))

-- Normalising numbers the stops 1, 2, ... in their order, ties by id: the stops afterwards are a
-- permutation of those before but for their numbers. A second run changes none.
pub normalize_again :
    (stops : List RouteStop)
    → let once = normalize_route_solution_stop_ordering stops in
      (once.stops ≡ renumbered 1 (sort stop_le stops))
      × Perm (sort stop_le stops) stops
      × (normalize_route_solution_stop_ordering once.stops
          ≡ record { stops = once.stops; changed_stops = []; first_changed_position = none })
unfolding normalize_route_solution_stop_ordering
normalize_again stops =
    let sorted = sort stop_le stops in
    let first_run = number_from-stops 1 sorted none in
    let again : sort stop_le (renumbered 1 sorted) ≡ renumbered 1 sorted =
      sort-eq_of_IsSorted stop_le (renumbered 1 sorted) (renumbered-IsSorted 1 sorted) in
    (first_run, sort-perm stop_le stops, rw (first_run, again) (number_from-renumbered 1 sorted))
