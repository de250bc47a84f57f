-- ===== src/Vehicles/Selector/Eligible.antt =====
-- Which vehicle is selected.
use next_mark_backend_v.Prelude.{
  ℕ, String, ◌≡◌, ◌↔◌, ◌⊎◌, refl, ◌∙◌, inl, inr, true, false, Option, none, some, List, [], ◌∷◌,
  ◌==◌, arith, Bool-cases, Option-cases, str_eq, str_eq_iff,
}
use next_mark_backend_v.Prelude.Sorting.{All, All-map, Any}
use next_mark_backend_v.Result.{ok, >>=-eq-ok}
use next_mark_backend_v.Vehicles.Selector.{
  Vehicle, text_in, id_in, has_required_capabilities, is_eligible, eligible_ids, first_in,
  choose_id, validate_capability_list, select_vehicle_for_route_solution,
}

-- A vehicle of the team that is active, has each of the capabilities, and is not excluded.
abbrev pub Eligible : ℕ → List String → List ℕ → Vehicle → Type 0
Eligible team caps excluded v =
    (v.team_id ≡ team)
    × (v.is_active ≡ true)
    × All (λ cap. Any (λ c. cap ≡ c) v.capabilities) caps
    × (¬ Any (λ j. v.id ≡ j) excluded)

-- Some vehicle of the table has the id and is eligible.
abbrev pub Available : ℕ → List String → List ℕ → List Vehicle → ℕ → Type 0
Available team caps excluded vehicles i =
    Any (λ v. (v.id ≡ i) × Eligible team caps excluded v) vehicles

-- The id is in the list, and no id before it has the property.
abbrev pub FirstOf : (ℕ → Type 0) → List ℕ → ℕ → Type 0
FirstOf P [] i = ⊥
FirstOf P (p ∷ ps) i = (i ≡ p) ⊎ ((¬ P p) × FirstOf P ps i)

FirstOf-map :
    {P Q : ℕ → Type 0} (ps : List ℕ) (i : ℕ)
    → ((p : ℕ) → Q p → P p)
    → FirstOf P ps i
    → FirstOf Q ps i
FirstOf-map [] i f h = h
FirstOf-map (p ∷ ps) i f (inl here) = inl here
FirstOf-map (p ∷ ps) i f (inr later) = inr (λ q. later.0 (f p q), FirstOf-map ps i f later.1)

-- What a selection promises: a vehicle that is available, and the first of the preferred ones that
-- is, if any is; no vehicle only where none is available.
abbrev pub Promised : ℕ → List ℕ → List String → List ℕ → List Vehicle → Option ℕ → Type 0
Promised team preferred caps excluded vehicles none =
    (i : ℕ) → ¬ Available team caps excluded vehicles i
Promised team preferred caps excluded vehicles (some i) =
    Available team caps excluded vehicles i
    × (FirstOf (Available team caps excluded vehicles) preferred i
        ⊎ All (λ p. ¬ Available team caps excluded vehicles p) preferred)

text_in-Any : (s : String) (ts : List String) → (text_in s ts ≡ true) ↔ Any (λ t. s ≡ t) ts
unfolding text_in
text_in-Any s [] = (λ e. absurd (cc), λ h. absurd h)
text_in-Any s (t ∷ ts) = (
  λ e. elim (Bool-cases (str_eq s t)) [
    | inl here ↦ inl ((str_eq_iff s t).0 here)
    | inr later ↦ inr ((text_in-Any s ts).0 (rw later at e))
  ],
  λ h. elim h [
    | inl here ↦ rw ((str_eq_iff s t).1 here) refl
    | inr later ↦ let rest = (text_in-Any s ts).1 later in ground arith
  ],
)

id_in-Any : (i : ℕ) (ids : List ℕ) → (id_in i ids ≡ true) ↔ Any (λ j. i ≡ j) ids
unfolding id_in
id_in-Any i [] = (λ e. absurd (cc), λ h. absurd h)
id_in-Any i (j ∷ ids) = (
  λ e. elim (Bool-cases (i == j)) [
    | inl here ↦ inl (ground arith)
    | inr later ↦ inr ((id_in-Any i ids).0 (rw later at e))
  ],
  λ h. elim h [
    | inl here ↦ ground arith
    | inr later ↦ let rest = (id_in-Any i ids).1 later in ground arith
  ],
)

capabilities-All :
    (caps : List String) (v : Vehicle)
    → (has_required_capabilities caps v ≡ true)
      ↔ All (λ cap. Any (λ c. cap ≡ c) v.capabilities) caps
unfolding has_required_capabilities
capabilities-All [] v = (λ e. tt, λ h. refl)
capabilities-All (cap ∷ caps) v = (
  λ e. (
    (text_in-Any cap v.capabilities).0 (ground arith),
    (capabilities-All caps v).0 (ground arith),
  ),
  λ h.
      let here = (text_in-Any cap v.capabilities).1 h.0 in
      let rest = (capabilities-All caps v).1 h.1 in rw (here, rest) refl,
)

module _ (team : ℕ) (caps : List String) (excluded : List ℕ) where
  is_eligible_iff :
      (v : Vehicle) → (is_eligible team caps excluded v ≡ true) ↔ Eligible team caps excluded v
  unfolding is_eligible
  is_eligible_iff v = (
    λ e. (
      ground arith,
      ground arith,
      (capabilities-All caps v).0 (ground arith),
      λ out. let listed = (id_in-Any v.id excluded).1 out in ground arith,
    ),
    λ h. elim (Bool-cases (id_in v.id excluded)) [
      | inl out ↦ absurd (h.3 ((id_in-Any v.id excluded).0 out))
      | inr kept ↦ let has = (capabilities-All caps v).1 h.2 in ground (arith, h.0, h.1)
    ],
  )

  id_in-Available :
      (i : ℕ) (vehicles : List Vehicle)
      → id_in i (eligible_ids team caps excluded vehicles) ≡ true
      → Available team caps excluded vehicles i
  unfolding eligible_ids id_in
  id_in-Available i [] e = absurd (cc)
  id_in-Available i (v ∷ vehicles) e = elim (Bool-cases (is_eligible team caps excluded v)) [
    | inl good ↦ elim (Bool-cases (i == v.id)) [
      | inl here ↦ inl (ground arith, (is_eligible_iff v).0 good)
      | inr elsewhere ↦ inr (id_in-Available i vehicles (rw (good, elsewhere) at e))
    ]
    | inr bad ↦ inr (id_in-Available i vehicles (rw bad at e))
  ]

  Available-id_in :
      (i : ℕ) (vehicles : List Vehicle)
      → Available team caps excluded vehicles i
      → id_in i (eligible_ids team caps excluded vehicles) ≡ true
  unfolding eligible_ids id_in
  Available-id_in i [] h = absurd h
  Available-id_in i (v ∷ vehicles) (inl h) =
      let good = (is_eligible_iff v).1 h.1 in ground (arith, h.0)
  Available-id_in i (v ∷ vehicles) (inr h) = ground (arith, Available-id_in i vehicles h)

-- The first preferred id that is in the list, if any.
first_in-lem :
    (preferred ids : List ℕ) (i : ℕ) → first_in preferred ids ≡ some i → id_in i ids ≡ true
unfolding first_in
first_in-lem [] ids i e = absurd (cc)
first_in-lem (p ∷ preferred) ids i e = ground (arith, first_in-lem preferred ids i)

choose_id-in :
    (preferred ids : List ℕ) (i : ℕ) → choose_id preferred ids ≡ some i → id_in i ids ≡ true
unfolding choose_id id_in
choose_id-in preferred [] i e = absurd (cc)
choose_id-in preferred (j ∷ ids) i e = ground (arith, first_in-lem preferred (j ∷ ids) i)

choose_id-none :
    (preferred ids : List ℕ) (i : ℕ) → choose_id preferred ids ≡ none → id_in i ids ≡ false
unfolding choose_id id_in
choose_id-none preferred [] i e = refl
choose_id-none preferred (j ∷ ids) i e = absurd (cc)

-- Either a preferred id is chosen, or none of them is in the list.
first_in-none :
    (preferred ids : List ℕ)
    → first_in preferred ids ≡ none
    → All (λ p. id_in p ids ≡ false) preferred
unfolding first_in
first_in-none [] ids e = tt
first_in-none (p ∷ preferred) ids e = (ground arith, first_in-none preferred ids (ground arith))

first_in-preferred :
    (preferred ids : List ℕ) (i : ℕ)
    → first_in preferred ids ≡ some i
    → FirstOf (λ p. id_in p ids ≡ true) preferred i
unfolding first_in
first_in-preferred [] ids i e = absurd (cc)
first_in-preferred (p ∷ preferred) ids i e = elim (Bool-cases (id_in p ids)) [
  | inl here ↦ inl (ground arith)
  | inr later ↦ inr (λ found. cc (found, later), first_in-preferred preferred ids i (rw later at e))
]

choose_id-preferred :
    (preferred ids : List ℕ) (i : ℕ)
    → choose_id preferred ids ≡ some i
    → FirstOf (λ p. id_in p ids ≡ true) preferred i ⊎ All (λ p. id_in p ids ≡ false) preferred
unfolding choose_id
choose_id-preferred preferred [] i e = absurd (cc)
choose_id-preferred preferred (j ∷ ids) i e = elim (Option-cases (first_in preferred (j ∷ ids))) [
  | inl missing ↦ inr (first_in-none preferred (j ∷ ids) missing)
  | inr (p, found) ↦ inl (first_in-preferred preferred (j ∷ ids) i (found ∙ rw found at e))
]

module _ (team : ℕ) (preferred : List ℕ) (caps : List String) (excluded : List ℕ)
    (vehicles : List Vehicle) where
  unavailable :
      (i : ℕ)
      → id_in i (eligible_ids team caps excluded vehicles) ≡ false
      → ¬ Available team caps excluded vehicles i
  unavailable i out = λ h. let found = Available-id_in team caps excluded i vehicles h in cc

  choose_id-Promised :
      (chosen : Option ℕ)
      → choose_id preferred (eligible_ids team caps excluded vehicles) ≡ chosen
      → Promised team preferred caps excluded vehicles chosen
  choose_id-Promised none e =
      λ i. unavailable i (choose_id-none preferred (eligible_ids team caps excluded vehicles) i e)
  choose_id-Promised (some i) e =
      let ids = eligible_ids team caps excluded vehicles in
      (
        id_in-Available team caps excluded i vehicles (choose_id-in preferred ids i e),
        elim (choose_id-preferred preferred ids i e) [
          | inl first ↦ inl (
              FirstOf-map preferred i (λ p h. Available-id_in team caps excluded p vehicles h)
                first)
          | inr others ↦ inr (All-map preferred unavailable others)
        ],
      )

ok-inj {ℓ} : {A : Type ℓ} {a b : A} → ok a ≡ ok b → a ≡ b
ok-inj e = cc

-- A vehicle that is selected is one of the table: of the team, active, with every required
-- capability as the request writes it, and not excluded; and it is the first of the preferred ones
-- that is such, unless none of these is. None is selected only where the table has no such vehicle.
pub select-Promised :
    (normalize : String → String) (team : ℕ) (preferred : List ℕ) (caps : List String)
    (excluded : List ℕ) (vehicles : List Vehicle) (chosen : Option ℕ)
    → select_vehicle_for_route_solution normalize team preferred caps excluded vehicles ≡ ok chosen
    → Promised team preferred caps excluded vehicles chosen
unfolding select_vehicle_for_route_solution
select-Promised normalize team preferred caps excluded vehicles chosen e =
    let valid = >>=-eq-ok (validate_capability_list normalize caps) _ e in
    choose_id-Promised team preferred caps excluded vehicles chosen (ok-inj valid.2)
