-- ===== src/Orders/PlanChange/Placed.antt =====
-- Every order that moves gets a group of the plan.
use next_mark_backend_v.Prelude.{
  arith, ℕ, ◌≡◌, refl, subst, inl, inr, Bool, true, false, ◌&&◌, Option, none, some, List, [], ◌∷◌,
  map, ◌==◌, Bool-cases, Option-cases, if◌then◌else◌,
}
use next_mark_backend_v.Prelude.Sorting.{All, All-map}
use next_mark_backend_v.Prelude.Rows.{any, is_some}
use next_mark_backend_v.Result.{Result, ok, err, ◌>>=◌, OnOk}
use next_mark_backend_v.Transitions.Ids.{id_is}
use next_mark_backend_v.Orders.PlanChange.Destination.{
  Group, ZoneAssignment, Changed, group_of_zone, no_zone_group, zone_of, zone_assignment_of,
  or_else, kept_group, inferred_group, required_group, infer_destinations, to_group,
  resolve_destination_route_group_ids, destination_of,
}

abbrev pub has_group : List Group → ℕ → Bool
has_group groups i = any (λ g. g.id == i) groups

abbrev pub if_some_in : List Group → Option ℕ → Bool
if_some_in groups none = true
if_some_in groups (some i) = has_group groups i

-- An order that keeps its group has one of the plan's.
abbrev pub Kept : List Group → ℕ → Changed → Type 0
Kept groups new_plan_id c = if_some_in groups (kept_group new_plan_id c) ≡ true

abbrev pub some_in : List Group → Option ℕ → Bool
some_in groups none = false
some_in groups (some i) = has_group groups i

-- Whether an order has got one of the groups.
abbrev pub lands : List Group → List (ℕ × ℕ) → Changed → Bool
lands groups destinations c = some_in groups (destination_of c.order.id destinations)

abbrev pub all_inferred : List ZoneAssignment → List Group → ℕ → List Changed → Bool
all_inferred zones groups new_plan_id [] = true
all_inferred zones groups new_plan_id (c ∷ changed) =
    is_some (inferred_group zones groups new_plan_id c)
    && all_inferred zones groups new_plan_id changed

-- Whether every order can be placed: in the group asked for, in the plan's only group, or in one
-- that its zone leads to.
abbrev pub is_placeable : List Changed → List ZoneAssignment → List Group → Option ℕ → ℕ → Bool
is_placeable changed zones groups (some destination) new_plan_id = has_group groups destination
is_placeable changed zones (g ∷ []) none new_plan_id = true
is_placeable changed zones groups none new_plan_id = all_inferred zones groups new_plan_id changed

abbrev pub is_ok {ℓ} : {A : Type ℓ} → Result A → Bool
is_ok (err _) = false
is_ok (ok _) = true

cons_in :
    (g : Group) (groups : List Group) (o : Option ℕ)
    → if_some_in groups o ≡ true
    → if_some_in (g ∷ groups) o ≡ true
unfolding any
cons_in g groups none h = refl
cons_in g groups (some i) h = ground arith

own_in :
    (g : Group) (groups : List Group) (b : Bool)
    → if_some_in (g ∷ groups) (if b then some g.id else none) ≡ true
unfolding any
own_in g groups false = refl
own_in g groups true = ground arith

group_of_zone-in :
    (zone : Option ℕ) (groups : List Group) → if_some_in groups (group_of_zone zone groups) ≡ true
unfolding group_of_zone any
group_of_zone-in none groups = refl
group_of_zone-in (some z) [] = refl
group_of_zone-in (some z) (g ∷ groups) =
    let rest =
      cons_in g groups (group_of_zone (some z) groups) (group_of_zone-in (some z) groups) in
    elim (Option-cases (group_of_zone (some z) groups)) [
      | inl e ↦ rw e (own_in g groups (id_is g.zone_id z))
      | inr (i, e) ↦
          let later : if_some_in (g ∷ groups) (some i) ≡ true =
            subst (λ o. if_some_in (g ∷ groups) o ≡ true) e rest in
          rw e later
    ]

no_zone_group-in : (groups : List Group) → if_some_in groups (no_zone_group groups) ≡ true
unfolding no_zone_group any
no_zone_group-in [] = refl
no_zone_group-in (g ∷ groups) = elim (Option-cases g.zone_id) [
  | inl e ↦ rw e (ground arith)
  | inr (z, e) ↦ rw e (cons_in g groups (no_zone_group groups) (no_zone_group-in groups))
]

or_else-in :
    (groups : List Group) (a b : Option ℕ)
    → if_some_in groups a ≡ true
    → if_some_in groups b ≡ true
    → if_some_in groups (or_else a b) ≡ true
or_else-in groups none b ha hb = hb
or_else-in groups (some i) b ha hb = ha

inferred_group-in :
    (zones : List ZoneAssignment) (groups : List Group) (new_plan_id : ℕ) (c : Changed)
    → Kept groups new_plan_id c
    → if_some_in groups (inferred_group zones groups new_plan_id c) ≡ true
unfolding inferred_group
inferred_group-in zones groups new_plan_id c h =
    let zone = zone_of (zone_assignment_of c.order.id zones) in
    or_else-in groups (kept_group new_plan_id c)
      (or_else (group_of_zone zone groups) (no_zone_group groups)) h
      (or_else-in groups (group_of_zone zone groups) (no_zone_group groups)
        (group_of_zone-in zone groups) (no_zone_group-in groups))

-- What a list of destinations gives to the orders.
abbrev Placed : List Group → List Changed → List (ℕ × ℕ) → Type 0
Placed groups changed destinations = All (λ c. lands groups destinations c ≡ true) changed

cons_lands :
    (groups : List Group) (d : ℕ × ℕ) (destinations : List (ℕ × ℕ)) (c : Changed)
    → has_group groups d.1 ≡ true
    → lands groups destinations c ≡ true
    → lands groups (d ∷ destinations) c ≡ true
unfolding destination_of
cons_lands groups d destinations c h rest = elim (Bool-cases (d.0 == c.order.id)) [
  | inl same ↦ rw same h
  | inr other ↦ rw other rest
]

cons_Placed :
    (groups : List Group) (i : ℕ) (c : Changed) (changed : List Changed)
    (destinations : List (ℕ × ℕ))
    → has_group groups i ≡ true
    → Placed groups changed destinations
    → Placed groups (c ∷ changed) ((c.order.id, i) ∷ destinations)
unfolding destination_of
cons_Placed groups i c changed destinations h rest =
    let own : (c.order.id == c.order.id) ≡ true = ground arith in
    (
      rw own h,
      All-map changed (λ d placed. cons_lands groups (c.order.id, i) destinations d h placed) rest,
    )

place_step :
    (groups : List Group) (c : Changed) (changed : List Changed) (o : Option ℕ)
    (call : Result (List (ℕ × ℕ))) {b : Bool}
    → if_some_in groups o ≡ true
    → is_ok call ≡ b
    → OnOk (Placed groups changed) call
    → let placed = required_group o >>= λ i. call >>= λ rest. ok ((c.order.id, i) ∷ rest) in
      (is_ok placed ≡ (is_some o && b)) × OnOk (Placed groups (c ∷ changed)) placed
place_step groups c changed none call h e rest = (refl, tt)
place_step groups c changed (some i) (err raised) h e rest = (e, tt)
place_step groups c changed (some i) (ok destinations) h e rest =
    (e, cons_Placed groups i c changed destinations h rest)

infer-Placed :
    (zones : List ZoneAssignment) (groups : List Group) (new_plan_id : ℕ) (changed : List Changed)
    → All (Kept groups new_plan_id) changed
    → (is_ok (infer_destinations zones groups new_plan_id changed)
        ≡ all_inferred zones groups new_plan_id changed)
      × OnOk (Placed groups changed) (infer_destinations zones groups new_plan_id changed)
unfolding infer_destinations
infer-Placed zones groups new_plan_id [] h = (refl, tt)
infer-Placed zones groups new_plan_id (c ∷ changed) h =
    let rest = infer-Placed zones groups new_plan_id changed h.1 in
    place_step groups c changed (inferred_group zones groups new_plan_id c)
      (infer_destinations zones groups new_plan_id changed)
      (inferred_group-in zones groups new_plan_id c h.0) rest.0 rest.1

map-to_group-Placed :
    (groups : List Group) (i : ℕ) (changed : List Changed)
    → has_group groups i ≡ true
    → Placed groups changed (map (to_group i) changed)
map-to_group-Placed groups i [] h = tt
map-to_group-Placed groups i (c ∷ changed) h =
    cons_Placed groups i c changed (map (to_group i) changed) h
      (map-to_group-Placed groups i changed h)

-- The destinations of orders that move: the call returns just where every order can be placed, and
-- then each order has got a group, which is one of the plan's. An order that keeps its group has one
-- of them to begin with.
pub resolve-Placed :
    (changed : List Changed) (zones : List ZoneAssignment) (groups : List Group)
    (destination : Option ℕ) (new_plan_id : ℕ)
    → All (Kept groups new_plan_id) changed
    → let call = resolve_destination_route_group_ids changed zones groups destination new_plan_id in
      (is_ok call ≡ is_placeable changed zones groups destination new_plan_id)
      × OnOk (λ destinations. All (λ c. lands groups destinations c ≡ true) changed) call
unfolding resolve_destination_route_group_ids any
resolve-Placed changed zones groups (some i) new_plan_id h =
    elim (Bool-cases (has_group groups i)) [
      | inl there ↦ rw there (refl, map-to_group-Placed groups i changed there)
      | inr missing ↦ rw missing (refl, tt)
    ]
resolve-Placed changed zones [] none new_plan_id h = infer-Placed zones [] new_plan_id changed h
resolve-Placed changed zones (g ∷ []) none new_plan_id h =
    (refl, map-to_group-Placed (g ∷ []) g.id changed (ground arith))
resolve-Placed changed zones (g ∷ k ∷ groups) none new_plan_id h =
    infer-Placed zones (g ∷ k ∷ groups) new_plan_id changed h
