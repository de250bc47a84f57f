-- ===== src/Prelude/Sorting.antt =====
-- A stable sort by a Boolean order, for the program's `sorted(..., key=...)` calls.
use mathlib.Core.List.{Perm}
use mathlib.Core.List.Perm
use next_mark_backend_v.Prelude.{
  ◌≡◌, ◌⊎◌, refl, ap, ◌∙◌, suc, length, Bool, true, false, inl, inr, List, [], ◌∷◌, if◌then◌else◌,
  Bool-cases,
}

-- `All P xs`: `P` holds of every entry.
abbrev pub All {ℓ κ} : {A : Type ℓ} → (A → Type κ) → List A → Type κ
All P [] = Unit
All P (x ∷ xs) = P x × All P xs

-- `Any P xs`: `P` holds of some entry.
abbrev pub Any {ℓ} : {A : Type ℓ} → (A → Type 0) → List A → Type 0
Any P [] = ⊥
Any P (x ∷ xs) = P x ⊎ Any P xs

pub All-map {ℓ κ μ} :
    {A : Type ℓ} {P : A → Type κ} {Q : A → Type μ} (xs : List A)
    → ((a : A) → P a → Q a)
    → All P xs
    → All Q xs
All-map [] f h = tt
All-map (x ∷ xs) f h = (f x h.0, All-map xs f h.1)

module _ {ℓ} {A : Type ℓ} (le : A → A → Bool) where
  unfoldable pub insert : A → List A → List A
  insert a [] = a ∷ []
  insert a (x ∷ xs) = if le a x then a ∷ x ∷ xs else x ∷ insert a xs

  -- Equal keys keep their order: an entry goes before the later ones that it is `le` to.
  unfoldable pub sort : List A → List A
  unfolding insert
  sort [] = []
  sort (x ∷ xs) = insert x (sort xs)

  -- Every entry is `le` to all later ones.
  abbrev pub IsSorted : List A → Type 0
  IsSorted [] = Unit
  IsSorted (x ∷ xs) = All (λ y. le x y ≡ true) xs × IsSorted xs

  insert-perm : (a : A) (xs : List A) → Perm (insert a xs) (a ∷ xs)
  unfolding insert
  insert-perm a [] = Perm.refl (a ∷ [])
  insert-perm a (x ∷ xs) =
      elim (le a x) as (λ b. Perm (if b then a ∷ x ∷ xs else x ∷ insert a xs) (a ∷ x ∷ xs)) [
        | true ↦ Perm.refl (a ∷ x ∷ xs)
        | false ↦ Perm.trans (Perm.cons x (insert-perm a xs)) (Perm.swap a x xs)
      ]

  pub sort-perm : (xs : List A) → Perm (sort xs) xs
  unfolding sort
  sort-perm [] = Perm.refl []
  sort-perm (x ∷ xs) = Perm.trans (insert-perm x (sort xs)) (Perm.cons x (sort-perm xs))

  module _ {κ} (P : A → Type κ) where
    pub insert-All : (a : A) (xs : List A) → P a → All P xs → All P (insert a xs)
    unfolding insert
    insert-All a [] p h = (p, tt)
    insert-All a (x ∷ xs) p h =
        elim (le a x) as (λ b. All P (if b then a ∷ x ∷ xs else x ∷ insert a xs)) [
          | true ↦ (p, h)
          | false ↦ (h.0, insert-All a xs p h.1)
        ]

    pub sort-All : (xs : List A) → All P xs → All P (sort xs)
    unfolding sort
    sort-All [] h = tt
    sort-All (x ∷ xs) h = insert-All x (sort xs) h.0 (sort-All xs h.1)

    insert-All_inv : (a : A) (xs : List A) → All P (insert a xs) → P a × All P xs
    unfolding insert
    insert-All_inv a [] h = h
    insert-All_inv a (x ∷ xs) h = elim (Bool-cases (le a x)) [
      | inl before ↦ rw before at h
      | inr after ↦
          let split = rw after at h in
          let rest = insert-All_inv a xs split.1 in (rest.0, (split.0, rest.1))
    ]

    pub sort-All_inv : (xs : List A) → All P (sort xs) → All P xs
    unfolding sort
    sort-All_inv [] h = tt
    sort-All_inv (x ∷ xs) h =
        let split = insert-All_inv x (sort xs) h in (split.0, sort-All_inv xs split.1)

  module _ (P : A → Type 0) where
    insert-Any_inv : (a : A) (xs : List A) → Any P (insert a xs) → P a ⊎ Any P xs
    unfolding insert
    insert-Any_inv a [] h = h
    insert-Any_inv a (x ∷ xs) h = elim (Bool-cases (le a x)) [
      | inl before ↦ rw before at h
      | inr after ↦ elim (rw after at h) [
        | inl here ↦ inr (inl here)
        | inr later ↦ elim (insert-Any_inv a xs later) [ inl p ↦ inl p | inr q ↦ inr (inr q) ]
      ]
    ]

    pub sort-Any_inv : (xs : List A) → Any P (sort xs) → Any P xs
    unfolding sort
    sort-Any_inv [] h = h
    sort-Any_inv (x ∷ xs) h = elim (insert-Any_inv x (sort xs) h) [
      | inl p ↦ inl p
      | inr q ↦ inr (sort-Any_inv xs q)
    ]

  -- A list in order is left as it is.
  length-insert : (a : A) (xs : List A) → length (insert a xs) ≡ suc (length xs)
  unfolding insert
  length-insert a [] = refl
  length-insert a (x ∷ xs) = elim (Bool-cases (le a x)) [
    | inl before ↦ rw before refl
    | inr after ↦ rw after (ap suc (length-insert a xs))
  ]

  pub length-sort : (xs : List A) → length (sort xs) ≡ length xs
  unfolding sort
  length-sort [] = refl
  length-sort (x ∷ xs) = length-insert x (sort xs) ∙ ap suc (length-sort xs)

  pub sort-eq_of_IsSorted : (xs : List A) → IsSorted xs → sort xs ≡ xs
  unfolding sort
  sort-eq_of_IsSorted [] h = refl
  sort-eq_of_IsSorted (x ∷ []) h = refl
  sort-eq_of_IsSorted (x ∷ y ∷ xs) h = rw (sort-eq_of_IsSorted (y ∷ xs) h.1, h.0.0)

  module _ (total : (a b : A) → le a b ≡ false → le b a ≡ true)
      (trans : (a b c : A) → le a b ≡ true → le b c ≡ true → le a c ≡ true) where
    insert-IsSorted : (a : A) (xs : List A) → IsSorted xs → IsSorted (insert a xs)
    unfolding insert
    insert-IsSorted a [] h = (tt, tt)
    insert-IsSorted a (x ∷ xs) h = elim (Bool-cases (le a x)) [
      | inl before ↦ rw before ((before, All-map xs (λ y q. trans a x y before q) h.0), h)
      | inr after ↦
          rw after
            (insert-All (λ y. le x y ≡ true) a xs (total a x after) h.0, insert-IsSorted a xs h.1)
    ]

    pub sort-IsSorted : (xs : List A) → IsSorted (sort xs)
    unfolding sort
    sort-IsSorted [] = tt
    sort-IsSorted (x ∷ xs) = insert-IsSorted x (sort xs) (sort-IsSorted xs)
