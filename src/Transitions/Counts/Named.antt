-- ===== src/Transitions/Counts/Named.antt =====
-- The names that orders are counted by, and set tests on chosen entries.
use next_mark_backend_v.Prelude.{
  ℕ, zero, suc, ◌≤◌, String, ◌≡◌, refl, Bool, true, false, not, ◌&&◌, ◌||◌, some, List, [], ◌∷◌,
  map, ◌==◌, str_eq, str_eq_iff, ltb, arith, Bool-cases, inl, inr,
}
use next_mark_backend_v.Prelude.Sorting.{All}
use next_mark_backend_v.Transitions.OrderStateId
use next_mark_backend_v.Transitions.Counts.{bump, joined_name, count_name, state_counts}
use next_mark_backend_v.Transitions.GroupState.{all, select, is_set_of, key}
use next_mark_backend_v.Transitions.Model.{
  OrderRow, StateCounts, order_state_seeds, completed_name, processing_name, ready_name,
  cancelled_name,
}

pub all-select {ℓ κ} :
    {A : Type ℓ} {B : Type κ} (p : A → Bool) (f : A → B) (q : B → Bool) (xs : List A)
    → all q (map f (select p xs)) ≡ all (λ x. not (p x) || q (f x)) xs
unfolding all select
all-select p f q [] = refl
all-select p f q (x ∷ xs) = elim (Bool-cases (p x)) [
  | inl kept ↦ rw kept (rw (all-select p f q xs))
  | inr dropped ↦ rw dropped (all-select p f q xs)
]

-- A set test on the chosen entries, as two tests on all entries.
pub is_set_of-select {ℓ κ} :
    {A : Type ℓ} {B : Type κ} (p : A → Bool) (f : A → B) (q : B → Bool) (xs : List A)
    → is_set_of q (map f (select p xs))
      ≡ (not (all (λ x. not (p x)) xs) && all (λ x. not (p x) || q (f x)) xs)
unfolding is_set_of all select
is_set_of-select p f q [] = refl
is_set_of-select p f q (x ∷ xs) = elim (Bool-cases (p x)) [
  | inl kept ↦ rw kept (rw (all-select p f q xs))
  | inr dropped ↦ rw dropped (is_set_of-select p f q xs)
]

pub all-bump :
    (q : String → Bool) (n : String) (m : StateCounts)
    → all (λ e. q (key e)) (bump n m) ≡ (q n && all (λ e. q (key e)) m)
unfolding all bump
all-bump q n [] = refl
all-bump q n ((k, c) ∷ m) = ground (arith, all-bump q n m, str_eq_iff k n)

-- Every count is positive.
abbrev pub AllPositive : StateCounts → Type 0
AllPositive m = All (λ e. ltb 0 e.1 ≡ true) m

pub bump-AllPositive : (n : String) (m : StateCounts) → AllPositive m → AllPositive (bump n m)
unfolding bump
bump-AllPositive n [] h = ground arith
bump-AllPositive n ((k, c) ∷ m) h = ground (arith, bump-AllPositive n m h.1)

-- An order whose state is one of the eight that the table is seeded with.
pub record HasKnownState (o : OrderRow) : Type 0 where
  pub state : ℕ
  pub is_set : o.order_state_id ≡ some state
  pub positive : 1 ≤ state
  pub bounded : state ≤ 8

-- The seeded name of a state tells the four states of the engine apart.
pub record IsNameOf (s : ℕ) (n : String) : Type 0 where
  pub seeded : order_state_seeds s ≡ some n
  pub filled : str_eq n "" ≡ false
  pub completed : str_eq n completed_name ≡ (s == OrderStateId.completed)
  pub processing : str_eq n processing_name ≡ (s == OrderStateId.processing)
  pub ready : str_eq n ready_name ≡ (s == OrderStateId.ready)
  pub cancelled : str_eq n cancelled_name ≡ (s == OrderStateId.cancelled)

pub known_name : (s : ℕ) → 1 ≤ s → s ≤ 8 → (n : String) × IsNameOf s n
unfolding order_state_seeds
known_name zero h k = elim h [ ]
known_name (suc zero) h k = (
  "Draft",
  record {
    seeded = refl;
    filled = refl;
    completed = refl;
    processing = refl;
    ready = refl;
    cancelled = refl;
  },
)
known_name (suc (suc zero)) h k = (
  "Confirmed",
  record {
    seeded = refl;
    filled = refl;
    completed = refl;
    processing = refl;
    ready = refl;
    cancelled = refl;
  },
)
known_name (suc (suc (suc zero))) h k = (
  "Preparing",
  record {
    seeded = refl;
    filled = refl;
    completed = refl;
    processing = refl;
    ready = refl;
    cancelled = refl;
  },
)
known_name (suc (suc (suc (suc zero)))) h k = (
  "Ready",
  record {
    seeded = refl;
    filled = refl;
    completed = refl;
    processing = refl;
    ready = refl;
    cancelled = refl;
  },
)
known_name (suc (suc (suc (suc (suc zero))))) h k = (
  "Processing",
  record {
    seeded = refl;
    filled = refl;
    completed = refl;
    processing = refl;
    ready = refl;
    cancelled = refl;
  },
)
known_name (suc (suc (suc (suc (suc (suc zero)))))) h k = (
  "Completed",
  record {
    seeded = refl;
    filled = refl;
    completed = refl;
    processing = refl;
    ready = refl;
    cancelled = refl;
  },
)
known_name (suc (suc (suc (suc (suc (suc (suc zero))))))) h k = (
  "Fail",
  record {
    seeded = refl;
    filled = refl;
    completed = refl;
    processing = refl;
    ready = refl;
    cancelled = refl;
  },
)
known_name (suc (suc (suc (suc (suc (suc (suc (suc zero)))))))) h k = (
  "Cancelled",
  record {
    seeded = refl;
    filled = refl;
    completed = refl;
    processing = refl;
    ready = refl;
    cancelled = refl;
  },
)
known_name (suc (suc (suc (suc (suc (suc (suc (suc (suc s))))))))) h k = absurd (omega arith)

pub joined_name-known :
    (o : OrderRow) (k : HasKnownState o)
    → (n : String) × IsNameOf k.state n × (joined_name order_state_seeds o ≡ some n)
unfolding joined_name
joined_name-known o k =
    let (n, is_name) = known_name k.state k.positive k.bounded in
    (n, is_name, rw (k.is_set, joined_name) (rw (is_name.seeded) (rw (is_name.filled))))

-- A test of names against a test of orders, over the counters and over the orders.
module _ (q : String → Bool) (r : OrderRow → Bool)
    (same : (o : OrderRow) (s : ℕ) (n : String)
      → o.order_state_id ≡ some s
      → IsNameOf s n
      → q n ≡ r o) where
  pub all-state_counts :
      (os : List OrderRow)
      → All HasKnownState os
      → all (λ e. q (key e)) (state_counts order_state_seeds os) ≡ all r os
  unfolding all state_counts count_name
  all-state_counts [] h = refl
  all-state_counts (o ∷ os) h =
      let (n, is_name, joined) = joined_name-known o h.0 in
      let counts = state_counts order_state_seeds os in
      rw joined (
        rw (all-bump q n counts)
          (rw (same o h.0.state n h.0.is_set is_name) (rw (all-state_counts os h.1))))
