-- ===== src/Routes/Ordering/Selected.antt =====
-- Which route of a group is selected.
use next_mark_backend_v.Prelude.{
  ℕ, ◌≡◌, ◌≢◌, refl, sym, ap, ◌∙◌, subst, Bool, false, Option, none, some, List, [], ◌∷◌, map, ◌==◌,
  if◌then◌else◌, arith, Bool-cases, ◌⊎◌, inl, inr,
}
use next_mark_backend_v.Prelude.Sorting.{All}
use next_mark_backend_v.Routes.Stop.{Route}
use next_mark_backend_v.Routes.Ordering.{
  find_route, or_route, route_or, preferred_route, choose_route, select_only,
  ensure_single_selected_route_solution,
}

-- No two routes of the list share an id.
abbrev pub DistinctIds : List Route → Type 0
DistinctIds [] = Unit
DistinctIds (r ∷ routes) = All (λ s. s.id ≢ r.id) routes × DistinctIds routes

unfoldable pub selected_ids : List Route → List ℕ
selected_ids [] = []
selected_ids (r ∷ routes) =
    if r.is_selected then r.id ∷ selected_ids routes else selected_ids routes

abbrev pub HasId : ℕ → List Route → Type 0
HasId i [] = ⊥
HasId i (r ∷ routes) = (r.id ≡ i) ⊎ HasId i routes

find_route-HasId :
    (test : Route → Bool) (routes : List Route) (r : Route)
    → find_route test routes ≡ some r
    → HasId r.id routes
unfolding find_route
find_route-HasId test [] r e = cc
find_route-HasId test (s ∷ routes) r e = elim (Bool-cases (test s)) [
  | inl hit ↦ let e' : some s ≡ some r = rw hit at e in inl (ap (λ o. id_or 0 o) e')
  | inr miss ↦ inr (find_route-HasId test routes r (rw miss at e))
]
  where
    id_or : ℕ → Option Route → ℕ
    id_or d none = d
    id_or d (some r) = r.id

none_selected :
    (c : Route) (routes : List Route)
    → All (λ s. s.id ≢ c.id) routes
    → selected_ids (map (select_only c) routes) ≡ []
unfolding selected_ids
none_selected c [] h = refl
none_selected c (s ∷ routes) h = ground (arith, none_selected c routes h.1, h.0)

apart : (k i : ℕ) (routes : List Route) → All (λ s. s.id ≢ k) routes → HasId i routes → k ≢ i
apart k i [] h has = absurd has
apart k i (s ∷ routes) h (inl e) = λ e'. h.0 (e ∙ sym e')
apart k i (s ∷ routes) h (inr has) = apart k i routes h.1 has

one_selected :
    (c : Route) (routes : List Route)
    → DistinctIds routes
    → HasId c.id routes
    → selected_ids (map (select_only c) routes) ≡ c.id ∷ []
unfolding selected_ids
one_selected c [] d has = absurd has
one_selected c (s ∷ routes) d (inl e) =
    ground (arith, none_selected c routes (subst (λ k. All (λ r. r.id ≢ k) routes) e d.0))
one_selected c (s ∷ routes) d (inr has) =
    ground (arith, apart s.id c.id routes d.0 has, one_selected c routes d.1 has)

or_route-HasId :
    (a b : Option Route) (d : Route) (routes : List Route)
    → ((r : Route) → a ≡ some r → HasId r.id routes)
    → ((r : Route) → b ≡ some r → HasId r.id routes)
    → HasId d.id routes
    → HasId (route_or (or_route a b) d).id routes
or_route-HasId none none d routes ha hb hd = hd
or_route-HasId none (some b) d routes ha hb hd = hb b refl
or_route-HasId (some a) b d routes ha hb hd = ha a refl

preferred_route-HasId :
    (preferred : Option ℕ) (routes : List Route) (r : Route)
    → preferred_route preferred routes ≡ some r
    → HasId r.id routes
unfolding preferred_route
preferred_route-HasId none routes r e = cc
preferred_route-HasId (some i) routes r e = find_route-HasId (λ s. s.id == i) routes r e

choose_route-HasId :
    (preferred : Option ℕ) (first : Route) (routes : List Route)
    → HasId (choose_route preferred first routes).id (first ∷ routes)
unfolding choose_route
choose_route-HasId preferred first routes =
    or_route-HasId (preferred_route preferred (first ∷ routes))
      (find_route (λ r. r.is_selected) (first ∷ routes)) first (first ∷ routes)
      (preferred_route-HasId preferred (first ∷ routes))
      (find_route-HasId (λ r. r.is_selected) (first ∷ routes)) (inl refl)

-- In a group whose routes have different ids, exactly one route is selected afterwards, whatever
-- was selected before: the chosen one, which is one of the group.
pub ensure_single_selected :
    (preferred : Option ℕ) (first : Route) (routes : List Route)
    → DistinctIds (first ∷ routes)
    → let chosen = choose_route preferred first routes in
      HasId chosen.id (first ∷ routes)
      × (selected_ids (ensure_single_selected_route_solution preferred (first ∷ routes))
          ≡ chosen.id ∷ [])
unfolding ensure_single_selected_route_solution
ensure_single_selected preferred first routes d =
    let has = choose_route-HasId preferred first routes in
    (has, one_selected (choose_route preferred first routes) (first ∷ routes) d has)

find_route-id :
    (i : ℕ) (routes : List Route)
    → HasId i routes
    → (r : Route) × (find_route (λ s. s.id == i) routes ≡ some r) × (r.id ≡ i)
unfolding find_route
find_route-id i [] has = absurd has
find_route-id i (s ∷ routes) has = elim (Bool-cases (s.id == i)) [
  | inl hit ↦ (s, rw hit refl, ground arith)
  | inr miss ↦ let r = find_route-id i routes (later has miss) in (r.0, rw miss r.1, r.2)
]
  where
    later : (s.id ≡ i) ⊎ HasId i routes → (s.id == i) ≡ false → HasId i routes
    later (inl e) miss = absurd (ground arith)
    later (inr h) miss = h

-- In a group whose routes have different ids, a preferred route of the group becomes the one
-- selected route.
pub ensure_preferred_selected :
    (i : ℕ) (routes : List Route)
    → DistinctIds routes
    → HasId i routes
    → selected_ids (ensure_single_selected_route_solution (some i) routes) ≡ i ∷ []
unfolding ensure_single_selected_route_solution choose_route preferred_route
ensure_preferred_selected i [] d has = absurd has
ensure_preferred_selected i (first ∷ routes) d has =
    let found = find_route-id i (first ∷ routes) has in
    let chosen : choose_route (some i) first routes ≡ found.0 =
      ap (λ o. route_or (or_route o (find_route (λ r. r.is_selected) (first ∷ routes))) first)
        found.1 in
    ap (λ c. selected_ids (map (select_only c) (first ∷ routes))) chosen
    ∙ one_selected found.0 (first ∷ routes) d
        (subst (λ k. HasId k (first ∷ routes)) (sym found.2) has)
    ∙ ap (λ k. k ∷ []) found.2
