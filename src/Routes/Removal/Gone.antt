-- ===== src/Routes/Removal/Gone.antt =====
-- The routes after a removal.
use next_mark_backend_v.Prelude.{
  ℕ, suc, ◌≡◌, refl, inl, inr, false, not, Option, none, some, List, [], ◌∷◌, map, Bool-cases,
}
use next_mark_backend_v.Prelude.Sorting.{All, sort, sort-All}
use next_mark_backend_v.Prelude.Rows.{any, select}
use next_mark_backend_v.Transitions.Ids.{id_is}
use next_mark_backend_v.Orders.Resolve.{dedupe_ids}
use next_mark_backend_v.Routes.Stop.{RouteStop, Route}
use next_mark_backend_v.Routes.Ordering.{
  numbered, number_from, stop_le, first_changed, candidate_position,
  normalize_route_solution_stop_ordering,
}
use next_mark_backend_v.Routes.Ordering.Numbered.{renumbered, normalize_again}
use next_mark_backend_v.Routes.Removal.{
  is_named, is_on_route, Removal, remove_from_route, remove_orders_stops_for_local_delivery,
}

module _ (P : RouteStop → Type 0) (keep : (i : ℕ) (s : RouteStop) → P s → P (numbered i s)) where
  number_from-All :
      (i : ℕ) (first : Option ℕ) (stops : List RouteStop)
      → All P stops
      → All P (number_from i first stops).stops
  unfolding number_from
  number_from-All i first [] h = tt
  number_from-All i first (s ∷ stops) h = elim (Bool-cases (id_is s.stop_order i)) [
    | inl same ↦ rw same (h.0, number_from-All (suc i) first stops h.1)
    | inr moved ↦ rw moved (
      keep i s h.0,
      number_from-All (suc i) (some (first_changed first (candidate_position s.stop_order i))) stops
          h.1,
    )
  ]

-- A stop that belongs to none of the orders.
abbrev pub Stays : List ℕ → RouteStop → Type 0
Stays ids s = is_named ids s ≡ false

select-Stays :
    (ids : List ℕ) (stops : List RouteStop)
    → All (Stays ids) (select (λ s. not (is_named ids s)) stops)
unfolding select
select-Stays ids [] = tt
select-Stays ids (s ∷ stops) = elim (Bool-cases (is_named ids s)) [
  | inl named ↦ rw named (select-Stays ids stops)
  | inr stays ↦ rw stays (stays, select-Stays ids stops)
]

remove_from_route-Stays :
    (ids : List ℕ) (route : Route) → All (Stays ids) (remove_from_route ids route).route.stops
unfolding remove_from_route normalize_route_solution_stop_ordering is_named
remove_from_route-Stays ids route =
    number_from-All (Stays ids) (λ i s h. h) 1 none _
      (sort-All stop_le (Stays ids) _ (select-Stays ids route.stops))

any-Stays :
    (ids : List ℕ) (stops : List RouteStop)
    → All (Stays ids) stops
    → any (is_named ids) stops ≡ false
unfolding any
any-Stays ids [] h = refl
any-Stays ids (s ∷ stops) h = rw h.0 (any-Stays ids stops h.1)

abbrev pub route_after : Removal → Route
route_after r = r.route

removed-none :
    (ids : List ℕ) (routes : List Route)
    → any (is_on_route ids) (map route_after (map (remove_from_route ids) routes)) ≡ false
unfolding any is_on_route
removed-none ids [] = refl
removed-none ids (route ∷ routes) =
    rw (any-Stays ids (remove_from_route ids route).route.stops (remove_from_route-Stays ids route))
      (removed-none ids routes)

-- After a removal no route that it returns has a stop of the orders: the same removal, of these
-- routes, finds nothing to do.
pub remove_orders_stops-again :
    (order_ids : List ℕ) (routes : List Route)
    → remove_orders_stops_for_local_delivery order_ids
        (map route_after (remove_orders_stops_for_local_delivery order_ids routes))
      ≡ []
unfolding remove_orders_stops_for_local_delivery
remove_orders_stops-again order_ids routes =
    let ids = dedupe_ids [] order_ids in
    elim (Bool-cases (any (is_on_route ids) routes)) [
      | inl found ↦ rw found (rw (removed-none ids routes) refl)
      | inr missing ↦ rw missing refl
    ]

-- The stops that a route keeps are the others, in their order, at the positions from 1 on.
pub remove_from_route-renumbered :
    (ids : List ℕ) (route : Route)
    → ((remove_from_route ids route).route.stops
        ≡ renumbered 1 (sort stop_le (select (λ s. not (is_named ids s)) route.stops)))
      × All (Stays ids) (remove_from_route ids route).route.stops
unfolding remove_from_route
remove_from_route-renumbered ids route = (
  (normalize_again (select (λ s. not (is_named ids s)) route.stops)).0,
  remove_from_route-Stays ids route,
)
