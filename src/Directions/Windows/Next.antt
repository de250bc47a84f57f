-- ===== src/Directions/Windows/Next.antt =====
-- The next window's start: where it lies, and how it moves with the arrival.
use next_mark_backend_v.Prelude.{
  ℕ, ◌≤◌, ◌<◌, ◌≡◌, ◌≢◌, true, false, ◌⊎◌, inl, inr, none, some, List, [], ◌∷◌, ltb, if◌then◌else◌,
  arith, Bool-cases, length, ◌+◌,
}
use next_mark_backend_v.Prelude.Sorting.{All, IsSorted, sort-IsSorted}
use next_mark_backend_v.Directions.Windows.{
  RawWindow, Window, window_le, valid_windows, normalize_windows, is_arrival_inside_any_window,
  first_after, next_start,
}

window_le-total : (v w : Window) → window_le v w ≡ false → window_le w v ≡ true
unfolding window_le
window_le-total v w h = ground arith

window_le_trans :
    (u v w : Window) → window_le u v ≡ true → window_le v w ≡ true → window_le u w ≡ true
unfolding window_le
window_le_trans u v w h k = ground arith

pub normalize_windows-IsSorted : (ws : List RawWindow) → IsSorted window_le (normalize_windows ws)
unfolding normalize_windows
normalize_windows-IsSorted ws =
    sort-IsSorted window_le window_le-total window_le_trans (valid_windows ws)

window_le-start : (v w : Window) → window_le v w ≡ true → v.start_at ≤ w.start_at
unfolding window_le
window_le-start v w h = ground arith

-- No window starts after `t` and before `s`.
abbrev pub NoneBetween : ℕ → ℕ → List Window → Type 0
NoneBetween t s ws = All (λ w. (w.start_at ≤ t) ⊎ (s ≤ w.start_at)) ws

later_start :
    (t s : ℕ) (v : Window) (ws : List Window)
    → s ≤ v.start_at
    → All (λ w. window_le v w ≡ true) ws
    → NoneBetween t s ws
later_start t s v [] h k = tt
later_start t s v (w ∷ ws) h k =
    (inr (omega (arith, window_le-start v w k.0)), later_start t s v ws h k.1)

pub first_after-NoneBetween :
    (t s : ℕ) (ws : List Window)
    → IsSorted window_le ws
    → first_after t ws ≡ some s
    → NoneBetween t s ws
unfolding first_after
first_after-NoneBetween t s [] h e = tt
first_after-NoneBetween t s (w ∷ ws) h e = elim (Bool-cases (ltb t w.start_at)) [
  | inl after ↦
      let at : s ≡ w.start_at = ground arith in
      (inr (omega arith), later_start t s w ws (omega arith) h.0)
  | inr before ↦ (inl (ground arith), first_after-NoneBetween t s ws h.1 (rw before at e))
]

-- The start that is found lies after the arrival.
pub first_after-lt : (t s : ℕ) (ws : List Window) → first_after t ws ≡ some s → t < s
unfolding first_after
first_after-lt t s [] e = cc
first_after-lt t s (w ∷ ws) e = ground (arith, first_after-lt t s ws)

pub inside-NoneBetween :
    (t u s : ℕ) (ws : List Window)
    → NoneBetween t s ws
    → t ≤ u
    → u < s
    → is_arrival_inside_any_window u ws ≡ true
    → is_arrival_inside_any_window t ws ≡ true
unfolding is_arrival_inside_any_window
inside-NoneBetween t u s [] h le lt e = cc
inside-NoneBetween t u s (w ∷ ws) h le lt e = ground (arith, inside-NoneBetween t u s ws h.1 le lt)

pub first_after-ne-none :
    (t u s : ℕ) (ws : List Window) → first_after t ws ≡ some s → u < s → first_after u ws ≢ none
unfolding first_after
first_after-ne-none t u s [] e lt = ground arith
first_after-ne-none t u s (w ∷ ws) e lt = ground (arith, first_after-ne-none t u s ws)

-- Every instant from `t` up to the next start is unsettled too.
pub next_start-gap :
    (t u s : ℕ) (ws : List Window)
    → IsSorted window_le ws
    → next_start t ws ≡ some s
    → t ≤ u
    → u < s
    → next_start u ws ≢ none
unfolding next_start
next_start-gap t u s ws sorted e le lt = elim (Bool-cases (is_arrival_inside_any_window t ws)) [
  | inl here ↦ let e' : none ≡ some s = rw here at e in cc
  | inr outside ↦
      let first : first_after t ws ≡ some s = rw outside at e in
      let between = first_after-NoneBetween t s ws sorted first in
      ground
        (arith, inside-NoneBetween t u s ws between le lt, first_after-ne-none t u s ws first lt)
]

pub next_start-lt : (t s : ℕ) (ws : List Window) → next_start t ws ≡ some s → t < s
unfolding next_start
next_start-lt t s ws e = ground (arith, first_after-lt t s ws)

-- How many windows start after an instant.
unfoldable pub starts_after : ℕ → List Window → ℕ
starts_after t [] = 0
starts_after t (w ∷ ws) = (if ltb t w.start_at then 1 else 0) + starts_after t ws

pub starts_after-le : (t u : ℕ) (ws : List Window) → t ≤ u → starts_after u ws ≤ starts_after t ws
unfolding starts_after
starts_after-le t u [] h = omega arith
starts_after-le t u (w ∷ ws) h = ground (arith, starts_after-le t u ws h)

pub starts_after-le-length : (t : ℕ) (ws : List Window) → starts_after t ws ≤ length ws
unfolding starts_after
starts_after-le-length t [] = omega arith
starts_after-le-length t (w ∷ ws) = ground (arith, starts_after-le-length t ws)

starts_after-first :
    (t s : ℕ) (ws : List Window) → first_after t ws ≡ some s → starts_after s ws < starts_after t ws
unfolding starts_after first_after
starts_after-first t s [] e = cc
starts_after-first t s (w ∷ ws) e = elim (Bool-cases (ltb t w.start_at)) [
  | inl after ↦
      let at : s ≡ w.start_at = ground arith in
      ground (arith, starts_after-le t s ws (ground arith))
  | inr before ↦
      let e' : first_after t ws ≡ some s = rw before at e in
      ground (arith, starts_after-first t s ws e', first_after-lt t s ws e')
]

-- At the next start at least one start less lies ahead.
pub starts_after-next :
    (t s : ℕ) (ws : List Window) → next_start t ws ≡ some s → starts_after s ws < starts_after t ws
unfolding next_start
starts_after-next t s ws e = ground (arith, starts_after-first t s ws)
