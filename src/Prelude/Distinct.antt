-- ===== src/Prelude/Distinct.antt =====
-- Tables with a unique key: no two rows are the same by a Boolean test.
use next_mark_backend_v.Prelude.{arith, ◌≡◌, refl, inl, inr, Bool, false, List, [], ◌∷◌, Bool-cases}
use next_mark_backend_v.Prelude.Rows.{any, add, modify, any-add, any-modify}

module _ {ℓ} {A : Type ℓ} (same : A → A → Bool) where
  abbrev pub Distinct : List A → Type 0
  Distinct [] = Unit
  Distinct (x ∷ xs) = (any (same x) xs ≡ false) × Distinct xs

module _ {ℓ} {A : Type ℓ} (same : A → A → Bool) (symmetric : (a b : A) → same a b ≡ same b a) where
  pub Distinct-add :
      (a : A) (xs : List A) → any (same a) xs ≡ false → Distinct same xs → Distinct same (add a xs)
  unfolding any add
  Distinct-add a [] fresh h = (refl, tt)
  Distinct-add a (x ∷ xs) fresh h =
      let apart : same x a ≡ false = ground (arith, symmetric x a) in
      let later = any-add (same x) a xs in (ground (arith), Distinct-add a xs (ground arith) h.1)

module _ {ℓ} {A : Type ℓ} (same : A → A → Bool) (p : A → Bool) (f : A → A)
    (left : (a b : A) → same (f a) b ≡ same a b) (right : (a b : A) → same a (f b) ≡ same a b) where
  any-same : (a : A) (xs : List A) → any (same (f a)) xs ≡ any (same a) xs
  unfolding any
  any-same a [] = refl
  any-same a (x ∷ xs) = rw (left a x, any-same a xs) refl

  pub Distinct-modify : (xs : List A) → Distinct same xs → Distinct same (modify p f xs)
  unfolding modify
  Distinct-modify [] h = tt
  Distinct-modify (x ∷ xs) h = elim (Bool-cases (p x)) [
    | inl here ↦ rw here (rw (any-same x xs) h.0, h.1)
    | inr later ↦
        rw later (rw (any-modify p (same x) f xs (λ y. right x y)) h.0, Distinct-modify xs h.1)
  ]
