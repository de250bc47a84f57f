-- ===== src/Directions/Clamp/Settled.antt =====
-- What the clamp leaves: every stop of every group is settled where it now arrives.
use mathlib.Core.Option
use next_mark_backend_v.Prelude.{ℕ, ◌+◌, ◌≡◌, sym, subst, none, some, List, [], ◌∷◌, map, arith}
use next_mark_backend_v.Prelude.Sorting.{All}
use next_mark_backend_v.Moment.{ensure_utc}
use next_mark_backend_v.Routes.Schedule.{apply_expected_stop_schedule}
use next_mark_backend_v.Directions.Windows.{RawWindow, next_start}
use next_mark_backend_v.Directions.Clamp.{
  Stop, arrival_of, target, move_stop, clamp_stop, clamp_groups, resolve_group_additional_shift,
}
use next_mark_backend_v.Directions.Clamp.Shift.{
  Target, seen, Settled, resolve_group_additional_shift-Settled,
}

-- The arrival that a target has after `k`.
moved : ℕ → Target → Target
moved k none = none
moved k (some (t, ws)) = some (t + k, ws)

arrival_of-clamp_stop :
    (plan : RawWindow) (k : ℕ) (s : Stop)
    → arrival_of (clamp_stop plan k s) ≡ Option.map (λ t. t + k) (arrival_of s)
unfolding clamp_stop arrival_of ensure_utc move_stop apply_expected_stop_schedule
arrival_of-clamp_stop plan k s = ground arith

order-clamp_stop : (plan : RawWindow) (k : ℕ) (s : Stop) → (clamp_stop plan k s).order ≡ s.order
unfolding clamp_stop
order-clamp_stop plan k s = ground arith

target-clamp_stop :
    (plan : RawWindow) (k : ℕ) (s : Stop)
    → target plan (clamp_stop plan k s) ≡ moved k (target plan s)
unfolding target moved
target-clamp_stop plan k s =
    ground (arith, order-clamp_stop plan k s, arrival_of-clamp_stop plan k s)

-- The arrival that is now on the stop is in no gap before a window of its order.
abbrev pub SettledNow : RawWindow → Stop → Type 0
SettledNow plan s = Settled 0 0 (target plan s)

Settled-moved : (acc g : ℕ) (x : Target) → Settled acc g x → Settled 0 0 (moved (acc + g) x)
unfolding moved
Settled-moved acc g none h = tt
Settled-moved acc g (some (t, ws)) h = subst (λ k. next_start k (seen ws) ≡ none) (omega arith) h

group-SettledNow :
    (plan : RawWindow) (acc g : ℕ) (group : List Stop)
    → All (λ x. Settled acc g x) (map (target plan) group)
    → All (SettledNow plan) (map (clamp_stop plan (acc + g)) group)
group-SettledNow plan acc g [] h = tt
group-SettledNow plan acc g (s ∷ group) h = (
  subst (Settled 0 0) (sym (target-clamp_stop plan (acc + g) s))
      (Settled-moved acc g (target plan s) h.0),
  group-SettledNow plan acc g group h.1,
)

-- After the clamp, every stop of every group that has an order and an arrival arrives inside one
-- of the order's effective windows, or after the start of the last one, or the order has none.
pub clamp_groups-SettledNow :
    (groups : List (List Stop)) (plan : RawWindow) (accumulated_shift : ℕ)
    → All (λ group. All (SettledNow plan) group) (clamp_groups plan accumulated_shift groups).0
unfolding clamp_groups
clamp_groups-SettledNow [] plan acc = tt
clamp_groups-SettledNow (group ∷ groups) plan acc =
    let shift = resolve_group_additional_shift group plan acc in
    (
      group-SettledNow plan acc shift group (resolve_group_additional_shift-Settled acc group plan),
      clamp_groups-SettledNow groups plan (acc + shift),
    )
