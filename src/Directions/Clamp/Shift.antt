-- ===== src/Directions/Clamp/Shift.antt =====
-- The shift of one group of stops: the loop ends with every stop settled, at the least such shift.
use native.Mathlib.Decide.{dec_lt}
use next_mark_backend_v.Prelude.{
  ℕ, zero, suc, ◌+◌, ◌-◌, ◌≤◌, ◌<◌, ◌≡◌, refl, sym, subst, Bool, true, false, Option, none, some,
  List, [], ◌∷◌, map, ltb, if◌then◌else◌, arith,
}
use next_mark_backend_v.Prelude.Sorting.{All}
use next_mark_backend_v.Moment.{ensure_utc}
use next_mark_backend_v.Directions.Windows.{
  RawWindow, Window, as_raw, normalize_windows, next_start, resolve_next_window_start,
}
use next_mark_backend_v.Directions.Windows.Next.{
  starts_after, starts_after-le, starts_after-next, starts_after-le-length, next_start-lt,
  next_start-gap, normalize_windows-IsSorted,
}
use next_mark_backend_v.Directions.Clamp.{
  try_shift, visit, pass, shift_loop, fuel_for, target, Stop, resolve_group_additional_shift,
}

abbrev pub Target : Type 0
Target = Option (ℕ × List Window)

-- The windows as `resolve_next_window_start` sees them.
abbrev pub seen : List Window → List Window
seen ws = normalize_windows (map as_raw ws)

module _ (acc : ℕ) where
  -- An arrival moved by the accumulated shift and `g` is in no gap before a window: it lies inside
  -- a window, or no window starts after it.
  abbrev pub Settled : ℕ → Target → Type 0
  Settled g none = Unit
  Settled g (some (t, ws)) = next_start (t + acc + g) (seen ws) ≡ none

  pending : ℕ → Target → ℕ
  pending g none = 0
  pending g (some (t, ws)) = starts_after (t + acc + g) (seen ws)

  pending_all : ℕ → List Target → ℕ
  pending_all g [] = 0
  pending_all g (x ∷ xs) = pending g x + pending_all g xs

  pending-le : (g h : ℕ) (x : Target) → g ≤ h → pending h x ≤ pending g x
  unfolding pending
  pending-le g h none le = omega arith
  pending-le g h (some (t, ws)) le =
      starts_after-le (t + acc + g) (t + acc + h) (seen ws) (omega arith)

  pending_all-le : (g h : ℕ) (xs : List Target) → g ≤ h → pending_all h xs ≤ pending_all g xs
  unfolding pending_all
  pending_all-le g h [] le = omega arith
  pending_all-le g h (x ∷ xs) le = omega (arith, pending-le g h x le, pending_all-le g h xs le)

  -- A visit leaves a settled stop, or it moves the shift so that less is pending, and by no more
  -- than any larger shift that settles the stop.
  data Visited (g : ℕ) (u : Bool) (x : Target) : ℕ × Bool → Type 0 where
    stays : Settled g x → Visited g u x (g, u)
    moves :
        (h : ℕ)
        → g < h
        → pending h x < pending g x
        → ((m : ℕ) → g ≤ m → Settled m x → h ≤ m)
        → Visited g u x (h, true)

  moves-Visited :
      (t : ℕ) (ws : List Window) (g : ℕ) (u : Bool) (s h : ℕ)
      → next_start (t + acc + g) (seen ws) ≡ some s
      → g < h
      → t + acc + h ≡ s
      → Visited g u (some (t, ws)) (h, true)
  unfolding pending
  moves-Visited t ws g u s h e lt at =
      moves h lt
        (subst (λ k. starts_after k (seen ws) < starts_after (t + acc + g) (seen ws)) (sym at)
          (starts_after-next (t + acc + g) s (seen ws) e))
        (λ m le settled. elim (dec_lt m h) [
          | yes below ↦ absurd (
              next_start-gap (t + acc + g) (t + acc + m) s (seen ws)
                (normalize_windows-IsSorted (map as_raw ws)) e (omega arith) (omega arith) settled)
          | no above ↦ omega arith
        ])

  try_shift-Visited :
      (t : ℕ) (ws : List Window) (g : ℕ) (u : Bool) (next : Option ℕ)
      → next_start (t + acc + g) (seen ws) ≡ next
      → Visited g u (some (t, ws)) (try_shift t acc (g, u) next)
  unfolding try_shift
  try_shift-Visited t ws g u none e = stays e
  try_shift-Visited t ws g u (some s) e =
      let later : t + acc + g < s = next_start-lt (t + acc + g) s (seen ws) e in
      let grows : ltb g (s - t - acc) ≡ true = ground arith in
      rw grows (moves-Visited t ws g u s (s - t - acc) e (omega arith) (omega arith))

  visit-Visited : (x : Target) (g : ℕ) (u : Bool) → Visited g u x (visit acc x (g, u))
  unfolding visit resolve_next_window_start ensure_utc
  visit-Visited none g u = stays tt
  visit-Visited (some (t, ws)) g u =
      try_shift-Visited t ws g u (next_start (t + acc + g) (seen ws)) refl

  -- A round over the group: every stop is settled and nothing has changed, or the shift has grown.
  data Passed (g : ℕ) (u : Bool) (xs : List Target) : ℕ × Bool → Type 0 where
    same : All (λ x. Settled g x) xs → Passed g u xs (g, u)
    grown :
        (h : ℕ)
        → g < h
        → pending_all h xs < pending_all g xs
        → ((m : ℕ) → g ≤ m → All (λ x. Settled m x) xs → h ≤ m)
        → Passed g u xs (h, true)

  passed-stays :
      (x : Target) (xs : List Target) (g : ℕ) (u : Bool) (r : ℕ × Bool)
      → Settled g x
      → Passed g u xs r
      → Passed g u (x ∷ xs) r
  unfolding pending_all
  passed-stays x xs g u r settled (same all) = same (settled, all)
  passed-stays x xs g u r settled (grown h lt less least) =
      grown h lt (omega (arith, pending-le g h x (omega arith))) (λ m le all. least m le all.1)

  passed-moves :
      (x : Target) (xs : List Target) (g : ℕ) (u : Bool) (h : ℕ) (r : ℕ × Bool)
      → g < h
      → pending h x < pending g x
      → ((m : ℕ) → g ≤ m → Settled m x → h ≤ m)
      → Passed h true xs r
      → Passed g u (x ∷ xs) r
  unfolding pending_all
  passed-moves x xs g u h r lt less least (same all) =
      grown h lt (omega (arith, pending_all-le g h xs (omega arith)))
        (λ m le all'. least m le all'.0)
  passed-moves x xs g u h r lt less least (grown k lt' less' least') =
      grown k (omega arith)
        (omega (arith, pending_all-le g h xs (omega arith), pending-le h k x (omega arith)))
        (λ m le all'. least' m (least m le all'.0) all'.1)

  visited-Passed :
      (x : Target) (xs : List Target) (g : ℕ) (u : Bool) (r : ℕ × Bool)
      → Visited g u x r
      → ((h : ℕ) (w : Bool) → Passed h w xs (pass acc xs (h, w)))
      → Passed g u (x ∷ xs) (pass acc xs r)
  visited-Passed x xs g u r (stays settled) ih = passed-stays x xs g u _ settled (ih g u)
  visited-Passed x xs g u r (moves h lt less least) ih =
      passed-moves x xs g u h _ lt less least (ih h true)

  pass-Passed : (xs : List Target) (g : ℕ) (u : Bool) → Passed g u xs (pass acc xs (g, u))
  unfolding pass
  pass-Passed [] g u = same tt
  pass-Passed (x ∷ xs) g u =
      visited-Passed x xs g u (visit acc x (g, u)) (visit-Visited x g u) (λ h w. pass-Passed xs h w)

  -- What the loop is for: every stop is settled, at the least shift from `g` on that does so.
  abbrev pub Least : ℕ → List Target → ℕ → Type 0
  Least g xs r =
      (g ≤ r) × All (λ x. Settled r x) xs × ((m : ℕ) → g ≤ m → All (λ x. Settled m x) xs → r ≤ m)

  after_pass-Least :
      (fuel g : ℕ) (xs : List Target) (r : ℕ × Bool)
      → Passed g false xs r
      → pending_all g xs < suc fuel
      → ((h : ℕ) → pending_all h xs < fuel → Least h xs (shift_loop fuel acc xs h))
      → Least g xs (if r.1 then shift_loop fuel acc xs r.0 else r.0)
  after_pass-Least fuel g xs r (same all) enough ih = (omega arith, all, λ m le all'. le)
  after_pass-Least fuel g xs r (grown h lt less least) enough ih =
      let rest = ih h (omega arith) in
      (omega (arith, rest.0), rest.1, λ m le all. rest.2 m (least m le all) all)

  shift_loop-Least :
      (fuel g : ℕ) (xs : List Target)
      → pending_all g xs < fuel
      → Least g xs (shift_loop fuel acc xs g)
  unfolding shift_loop
  shift_loop-Least zero g xs enough = absurd (omega arith)
  shift_loop-Least (suc fuel) g xs enough =
      after_pass-Least fuel g xs (pass acc xs (g, false)) (pass-Passed xs g false) enough
        (λ h few. shift_loop-Least fuel h xs few)

  pending_all-lt-fuel_for : (g : ℕ) (xs : List Target) → pending_all g xs < fuel_for xs
  unfolding pending_all pending fuel_for
  pending_all-lt-fuel_for g [] = omega arith
  pending_all-lt-fuel_for g (none ∷ xs) = omega (arith, pending_all-lt-fuel_for g xs)
  pending_all-lt-fuel_for g (some (t, ws) ∷ xs) =
      omega (arith, pending_all-lt-fuel_for g xs, starts_after-le-length (t + acc + g) (seen ws))

  pub resolve_group_additional_shift-Settled :
      (group_stops : List Stop) (plan : RawWindow)
      → let shift = resolve_group_additional_shift group_stops plan acc in
        All (λ x. Settled shift x) (map (target plan) group_stops)
  unfolding resolve_group_additional_shift
  resolve_group_additional_shift-Settled group_stops plan =
      let xs = map (target plan) group_stops in
      (shift_loop-Least (fuel_for xs) 0 xs (pending_all-lt-fuel_for 0 xs)).1

  -- The loop moves a group no further than needed: any shift that leaves every stop of the group
  -- inside a window or past the last window's start is at least the one that the loop returns.
  pub resolve_group_additional_shift-le :
      (m : ℕ) (group_stops : List Stop) (plan : RawWindow)
      → All (λ x. Settled m x) (map (target plan) group_stops)
      → resolve_group_additional_shift group_stops plan acc ≤ m
  unfolding resolve_group_additional_shift
  resolve_group_additional_shift-le m group_stops plan all =
      let xs = map (target plan) group_stops in
      (shift_loop-Least (fuel_for xs) 0 xs (pending_all-lt-fuel_for 0 xs)).2 m (omega arith) all
