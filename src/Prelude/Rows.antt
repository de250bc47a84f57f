-- ===== src/Prelude/Rows.antt =====
-- Queries and writes on the rows of a table: `.first()`, `.filter(...)` and a write to a row found.
use mathlib.Core.Option
use next_mark_backend_v.Prelude.{
  arith, ◌≡◌, refl, inl, inr, Bool, true, false, ◌||◌, Option, none, some, List, [], ◌∷◌,
  if◌then◌else◌, Bool-cases,
}
use next_mark_backend_v.Prelude.Sorting.{All}

abbrev pub is_some {ℓ} : {A : Type ℓ} → Option A → Bool
is_some none = false
is_some (some _) = true

module _ {ℓ} {A : Type ℓ} where
  unfoldable pub find : (A → Bool) → List A → Option A
  find p [] = none
  find p (x ∷ xs) = if p x then some x else find p xs

  unfoldable pub any : (A → Bool) → List A → Bool
  any p [] = false
  any p (x ∷ xs) = p x || any p xs

  -- The rows of a query, in the order of the table.
  unfoldable pub select : (A → Bool) → List A → List A
  select p [] = []
  select p (x ∷ xs) = if p x then x ∷ select p xs else select p xs

  -- A write to the row that `find` returns.
  unfoldable pub modify : (A → Bool) → (A → A) → List A → List A
  modify p f [] = []
  modify p f (x ∷ xs) = if p x then f x ∷ xs else x ∷ modify p f xs

  -- A new row comes last.
  unfoldable pub add : A → List A → List A
  add a [] = a ∷ []
  add a (x ∷ xs) = x ∷ add a xs

-- What holds of a row, if there is one.
abbrev pub OnSome {ℓ κ} : {A : Type ℓ} → (A → Type κ) → Option A → Type κ
OnSome P none = Unit
OnSome P (some x) = P x

module _ {ℓ} {A : Type ℓ} (p : A → Bool) where
  pub find_sound : (xs : List A) → OnSome (λ x. p x ≡ true) (find p xs)
  unfolding find
  find_sound [] = tt
  find_sound (x ∷ xs) = elim (Bool-cases (p x)) [
    | inl here ↦ rw here here
    | inr later ↦ rw later (find_sound xs)
  ]

  pub find-none : (xs : List A) → any p xs ≡ false → find p xs ≡ none
  unfolding find any
  find-none [] e = refl
  find-none (x ∷ xs) e = elim (Bool-cases (p x)) [
    | inl here ↦ absurd (cc)
    | inr later ↦ rw later (find-none xs (ground arith))
  ]

  pub find-any : (xs : List A) → any p xs ≡ true → is_some (find p xs) ≡ true
  unfolding find any
  find-any [] e = cc
  find-any (x ∷ xs) e = elim (Bool-cases (p x)) [
    | inl here ↦ rw here refl
    | inr later ↦ rw later (find-any xs (ground arith))
  ]

  pub find-All {κ} : (P : A → Type κ) (xs : List A) → All P xs → OnSome P (find p xs)
  unfolding find
  find-All P [] h = tt
  find-All P (x ∷ xs) h = elim (Bool-cases (p x)) [
    | inl here ↦ rw here h.0
    | inr later ↦ rw later (find-All P xs h.1)
  ]

  pub modify-All {κ} :
      (P : A → Type κ) (f : A → A) (xs : List A)
      → ((x : A) → P x → P (f x))
      → All P xs
      → All P (modify p f xs)
  unfolding modify
  modify-All P f [] keep h = tt
  modify-All P f (x ∷ xs) keep h = elim (Bool-cases (p x)) [
    | inl here ↦ rw here (keep x h.0, h.1)
    | inr later ↦ rw later (h.0, modify-All P f xs keep h.1)
  ]

  -- A write that leaves a test as it was.
  pub any-modify :
      (q : A → Bool) (f : A → A) (xs : List A)
      → ((x : A) → q (f x) ≡ q x)
      → any q (modify p f xs) ≡ any q xs
  unfolding modify any
  any-modify q f [] same = refl
  any-modify q f (x ∷ xs) same = elim (Bool-cases (p x)) [
    | inl here ↦ rw (here, same x) refl
    | inr later ↦ rw (later, any-modify q f xs same) refl
  ]

  -- The row found is the row written.
  pub find-modify :
      (f : A → A) (xs : List A)
      → ((x : A) → p (f x) ≡ p x)
      → find p (modify p f xs) ≡ Option.map f (find p xs)
  unfolding modify find
  find-modify f [] same = refl
  find-modify f (x ∷ xs) same = elim (Bool-cases (p x)) [
    | inl here ↦ let still : p (f x) ≡ true = cc (here, same x) in rw (here, still) refl
    | inr later ↦ rw (later, later) (find-modify f xs same)
  ]

module _ {ℓ} {A : Type ℓ} where
  pub add-All {κ} : (P : A → Type κ) (a : A) (xs : List A) → P a → All P xs → All P (add a xs)
  unfolding add
  add-All P a [] p h = (p, tt)
  add-All P a (x ∷ xs) p h = (h.0, add-All P a xs p h.1)

  pub any-add : (q : A → Bool) (a : A) (xs : List A) → any q (add a xs) ≡ (any q xs || q a)
  unfolding add any
  any-add q a [] = ground arith
  any-add q a (x ∷ xs) = ground (arith, any-add q a xs)
