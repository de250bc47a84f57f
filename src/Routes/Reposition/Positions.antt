-- ===== src/Routes/Reposition/Positions.antt =====
-- The positions after a move: a permutation of those before it.
use next_mark_backend_v.Prelude.{
  ℕ, ◌+◌, ◌-◌, ◌≤◌, ◌<◌, ◌≡◌, ◌≢◌, refl, sym, ◌∙◌, subst, true, false, ◌&&◌, ◌⊎◌, inl, inr, Option,
  List, [], ◌∷◌, map, ◌==◌, ltb, leb, if◌then◌else◌, arith,
}
use next_mark_backend_v.Prelude.Sorting.{All}
use next_mark_backend_v.Transitions.Ids.{same_id}
use next_mark_backend_v.Routes.Stop.{RouteStop, position_of}
use next_mark_backend_v.Routes.Reposition.{
  shift_up, shift_down, shift_stop, place_stop, reorder_stops,
}

-- The position that a move from `c` to `p` gives to position `k`.
unfoldable pub moved_to : ℕ → ℕ → ℕ → ℕ
moved_to p c k =
    if k == c
    then p
    else if leb p k && ltb k c
    then k + 1
    else if ltb c k && leb k p
    then k - 1
    else k

pub moved_to-inj : (p c j k : ℕ) → moved_to p c j ≡ moved_to p c k → j ≡ k
unfolding moved_to
moved_to-inj p c j k e = ground arith

moved_to_self : (p c : ℕ) → moved_to p c c ≡ p
unfolding moved_to
moved_to_self p c = ground arith

moved_to_mono : (p c j k : ℕ) → j ≢ c → k ≢ c → j < k → moved_to p c j < moved_to p c k
unfolding moved_to
moved_to_mono p c j k hj hk lt = ground arith

moved_to-range :
    (p c k n : ℕ)
    → 1 ≤ p
    → p ≤ n
    → 1 ≤ c
    → c ≤ n
    → 1 ≤ k
    → k ≤ n
    → (1 ≤ moved_to p c k) × (moved_to p c k ≤ n)
unfolding moved_to
moved_to-range p c k n hp hn hc hcn hk hkn = ground arith

-- A stop of a well-formed route beside the moved one: it is that stop, or differs from it in its
-- id, its order and its position.
abbrev pub Beside : RouteStop → RouteStop → Type 0
Beside m s =
    ((s.id ≡ m.id) × (same_id s.order_id m.order_id ≡ true) × (position_of s ≡ position_of m))
    ⊎ ((s.id ≢ m.id) × (same_id s.order_id m.order_id ≡ false) × (position_of s ≢ position_of m))

-- What the move makes of a stop: `reorder_stops` maps this.
abbrev pub new_stop : ℕ → RouteStop → RouteStop → RouteStop
new_stop p m s = place_stop p m (shift_stop p (position_of m) m s)

id-shift_stop : (p c : ℕ) (m s : RouteStop) → (shift_stop p c m s).id ≡ s.id
unfolding shift_stop shift_up shift_down
id-shift_stop p c m s = ground arith

order_id-reorder_stop :
    (p c : ℕ) (m s : RouteStop) → (place_stop p m (shift_stop p c m s)).order_id ≡ s.order_id
unfolding place_stop shift_stop shift_up shift_down
order_id-reorder_stop p c m s = ground arith

position-shift_stop :
    (p : ℕ) (m s : RouteStop)
    → p ≢ position_of m
    → same_id s.order_id m.order_id ≡ false
    → position_of s ≢ position_of m
    → position_of (shift_stop p (position_of m) m s) ≡ moved_to p (position_of m) (position_of s)
unfolding shift_stop shift_up shift_down moved_to
position-shift_stop p m s ne other apart = rw other (ground arith)

position-place_stop :
    (p : ℕ) (m s : RouteStop)
    → position_of (place_stop p m s) ≡ (if s.id == m.id then p else position_of s)
unfolding place_stop
position-place_stop p m s = ground arith

position-new_stop :
    (p : ℕ) (m s : RouteStop)
    → p ≢ position_of m
    → Beside m s
    → position_of (new_stop p m s) ≡ moved_to p (position_of m) (position_of s)
unfolding moved_to
position-new_stop p m s ne (inl (same, one, at)) =
    position-place_stop p m (shift_stop p (position_of m) m s)
    ∙ rw (id-shift_stop p (position_of m) m s) (ground arith)
position-new_stop p m s ne (inr (apart, other, away)) =
    position-place_stop p m (shift_stop p (position_of m) m s)
    ∙ ground (arith, id-shift_stop p (position_of m) m s, position-shift_stop p m s ne other away)

away : (m s : RouteStop) → Beside m s → s.id ≢ m.id → position_of s ≢ position_of m
away m s (inl h) ne = absurd (ne h.0)
away m s (inr h) ne = h.2

abbrev pub positions : List RouteStop → List ℕ
positions stops = map position_of stops

positions-reorder_stops :
    (p : ℕ) (m : RouteStop) (stops : List RouteStop)
    → p ≢ position_of m
    → All (Beside m) stops
    → positions (reorder_stops p (position_of m) m stops)
      ≡ map (moved_to p (position_of m)) (positions stops)
unfolding reorder_stops
positions-reorder_stops p m [] ne h = refl
positions-reorder_stops p m (s ∷ stops) ne h =
    λ i. position-new_stop p m s ne h.0 i ∷ positions-reorder_stops p m stops ne h.1 i

-- No number of the list stands in it twice.
abbrev pub Distinct : List ℕ → Type 0
Distinct [] = Unit
Distinct (k ∷ ks) = All (λ j. j ≢ k) ks × Distinct ks

apart-map :
    (p c k : ℕ) (ks : List ℕ)
    → All (λ j. j ≢ k) ks
    → All (λ j. j ≢ moved_to p c k) (map (moved_to p c) ks)
apart-map p c k [] h = tt
apart-map p c k (j ∷ ks) h = (λ e. h.0 (moved_to-inj p c j k e), apart-map p c k ks h.1)

Distinct-map : (p c : ℕ) (ks : List ℕ) → Distinct ks → Distinct (map (moved_to p c) ks)
Distinct-map p c [] h = tt
Distinct-map p c (k ∷ ks) h = (apart-map p c k ks h.0, Distinct-map p c ks h.1)

abbrev pub Within : ℕ → List ℕ → Type 0
Within n ks = All (λ k. (1 ≤ k) × (k ≤ n)) ks

Within-map :
    (p c n : ℕ) (ks : List ℕ)
    → 1 ≤ p
    → p ≤ n
    → 1 ≤ c
    → c ≤ n
    → Within n ks
    → Within n (map (moved_to p c) ks)
Within-map p c n [] hp hn hc hcn h = tt
Within-map p c n (k ∷ ks) hp hn hc hcn h =
    (moved_to-range p c k n hp hn hc hcn h.0.0 h.0.1, Within-map p c n ks hp hn hc hcn h.1)

-- On a route whose other stops differ from the moved one in id, order and position, a move to
-- another position within `1 .. n` keeps distinct positions distinct and positions in `1 .. n`
-- there, and gives each position the one that `moved_to` says.
pub reorder_stops-Positions :
    (n p : ℕ) (m : RouteStop) (stops : List RouteStop)
    → All (Beside m) stops
    → p ≢ position_of m
    → 1 ≤ p
    → p ≤ n
    → 1 ≤ position_of m
    → position_of m ≤ n
    → Distinct (positions stops)
    → Within n (positions stops)
    → let new = reorder_stops p (position_of m) m stops in
      Distinct (positions new)
      × Within n (positions new)
      × (positions new ≡ map (moved_to p (position_of m)) (positions stops))
reorder_stops-Positions n p m stops beside ne hp hn hc hcn distinct within =
    let c = position_of m in
    let e = positions-reorder_stops p m stops ne beside in
    (
      subst Distinct (sym e) (Distinct-map p c (positions stops) distinct),
      subst (Within n) (sym e) (Within-map p c n (positions stops) hp hn hc hcn within),
      e,
    )

id-new_stop : (p : ℕ) (m s : RouteStop) → (new_stop p m s).id ≡ s.id
unfolding place_stop
id-new_stop p m s = ground (arith, id-shift_stop p (position_of m) m s)

abbrev pub key_of : RouteStop → ℕ × Option ℕ
key_of s = (s.id, s.order_id)

kept-reorder_stops :
    (p : ℕ) (m : RouteStop) (stops : List RouteStop)
    → map key_of (reorder_stops p (position_of m) m stops) ≡ map key_of stops
unfolding reorder_stops
kept-reorder_stops p m [] = refl
kept-reorder_stops p m (s ∷ stops) = λ i.
    (id-new_stop p m s i, order_id-reorder_stop p (position_of m) m s i)
    ∷ kept-reorder_stops p m stops i

-- A move to another position leaves every stop's id and order in place in the list, puts the moved
-- stop at that position, and keeps the relative order of two stops that differ from the moved one
-- in id, order and position.
pub reorder_stops-order :
    (p : ℕ) (m a b : RouteStop) (stops : List RouteStop)
    → p ≢ position_of m
    → Beside m a
    → Beside m b
    → a.id ≢ m.id
    → b.id ≢ m.id
    → position_of a < position_of b
    → (map key_of (reorder_stops p (position_of m) m stops) ≡ map key_of stops)
      × (position_of (new_stop p m m) ≡ p)
      × (position_of (new_stop p m a) < position_of (new_stop p m b))
reorder_stops-order p m a b stops ne beside_a beside_b ha hb lt = (
  kept-reorder_stops p m stops,
  position-place_stop p m (shift_stop p (position_of m) m m)
      ∙ ground (arith, id-shift_stop p (position_of m) m m),
  rw (position-new_stop p m a ne beside_a, position-new_stop p m b ne beside_b)
      (moved_to_mono p (position_of m) (position_of a) (position_of b) (away m a beside_a ha)
        (away m b beside_b hb) lt),
)
