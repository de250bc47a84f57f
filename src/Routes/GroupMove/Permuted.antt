-- ===== src/Routes/GroupMove/Permuted.antt =====
-- A block move keeps every stop.
use next_mark_backend_v.Prelude.{
  ℕ, ◌+◌, ◌-◌, ◌≤◌, ◌≡◌, refl, sym, ◌∙◌, ap, Bool, true, false, not, ◌&&◌, List, [], ◌∷◌, ◌++◌,
  ◌==◌, ltb, leb, length, take, drop, take-append-drop, if◌then◌else◌, arith, Bool-cases, inl, inr,
}
use next_mark_backend_v.Result.{ok, validation_failed, guard, >>=-eq-ok}
use next_mark_backend_v.Routes.GroupMove.{
  max_route_stop_ids, stop_in, is_filled_ids, unique_ids, parse_route_stop_ids, remaining_ids,
  all_in, next_ordered_ids, order_group, move_group,
}

-- How often an id stands in a list.
unfoldable pub occurrences : ℕ → List ℕ → ℕ
occurrences i [] = 0
occurrences i (j ∷ js) = (if j == i then 1 else 0) + occurrences i js

occurrences-append :
    (i : ℕ) (xs ys : List ℕ) → occurrences i (xs ++ ys) ≡ occurrences i xs + occurrences i ys
unfolding occurrences
occurrences-append i [] ys = omega arith
occurrences-append i (x ∷ xs) ys = ground (arith, occurrences-append i xs ys)

occurrences-remaining_ids :
    (i : ℕ) (moving is : List ℕ)
    → occurrences i (remaining_ids moving is) ≡ (if stop_in i moving then 0 else occurrences i is)
unfolding occurrences remaining_ids
occurrences-remaining_ids i moving [] = ground arith
occurrences-remaining_ids i moving (j ∷ is) = elim (Bool-cases (j == i)) [
  | inl same ↦
      let at : j ≡ i = ground arith in
      ground (arith, ap (λ k. stop_in k moving) at, occurrences-remaining_ids i moving is)
  | inr other ↦ ground (arith, occurrences-remaining_ids i moving is)
]

occurrences-of_in : (i : ℕ) (is : List ℕ) → stop_in i is ≡ true → 1 ≤ occurrences i is
unfolding occurrences stop_in
occurrences-of_in i [] e = absurd (cc)
occurrences-of_in i (j ∷ is) e = ground (arith, occurrences-of_in i is)

occurrences-of_not_in : (i : ℕ) (is : List ℕ) → stop_in i is ≡ false → occurrences i is ≡ 0
unfolding occurrences stop_in
occurrences-of_not_in i [] e = refl
occurrences-of_not_in i (j ∷ is) e = ground (arith, occurrences-of_not_in i is)

all_in-in :
    (i : ℕ) (is ids : List ℕ) → all_in is ids ≡ true → stop_in i is ≡ true → stop_in i ids ≡ true
unfolding all_in stop_in
all_in-in i [] ids all e = absurd (cc)
all_in-in i (j ∷ is) ids all e = elim (Bool-cases (j == i)) [
  | inl same ↦ let at : j ≡ i = ground arith in ground (arith, ap (λ k. stop_in k ids) at)
  | inr other ↦ ground (arith, all_in-in i is ids)
]

new_once :
    (i j : ℕ) (seen rest : List ℕ)
    → stop_in j seen ≡ false
    → occurrences i rest ≤ (if stop_in i (j ∷ seen) then 0 else 1)
    → occurrences i (j ∷ rest) ≤ (if stop_in i seen then 0 else 1)
unfolding occurrences stop_in
new_once i j seen rest new h = elim (Bool-cases (j == i)) [
  | inl same ↦ let at : j ≡ i = ground arith in ground (arith, ap (λ k. stop_in k seen) at)
  | inr other ↦ ground arith
]

unique_ids-once :
    (i : ℕ) (seen is out : List ℕ)
    → unique_ids seen is ≡ ok out
    → occurrences i out ≤ (if stop_in i seen then 0 else 1)
unfolding unique_ids occurrences
unique_ids-once i seen [] out e = let nil : [] ≡ out = cc in rw (← nil) (omega arith)
unique_ids-once i seen (j ∷ is) out e =
    let positive = >>=-eq-ok (guard (ltb 0 j) validation_failed) _ e in
    elim (Bool-cases (stop_in j seen)) [
      | inl old ↦ unique_ids-once i seen is out (rw old at positive.2)
      | inr new ↦
          let later = >>=-eq-ok (unique_ids (j ∷ seen) is) _ (rw new at positive.2) in
          let rest = unique_ids-once i (j ∷ seen) is later.0 later.1 in
          let whole : j ∷ later.0 ≡ out = cc in rw (← whole) (new_once i j seen later.0 new rest)
    ]

once-split :
    (c m r : ℕ) (b : Bool)
    → c ≤ 1
    → m ≤ 1
    → (b ≡ true → 1 ≤ m)
    → (b ≡ true → 1 ≤ c)
    → (b ≡ false → m ≡ 0)
    → r ≡ (if b then 0 else c)
    → m + r ≡ c
once-split c m r b hc hm hbm hbc hn e = ground (arith, hbm, hbc, hn)

guard-true : (b : Bool) {u : Unit {0}} → guard b validation_failed ≡ ok u → b ≡ true
guard-true true e = refl
guard-true false e = cc

occurrences-next :
    (i position : ℕ) (moving current : List ℕ)
    → occurrences i current ≤ 1
    → occurrences i moving ≤ 1
    → all_in moving current ≡ true
    → occurrences i (next_ordered_ids position moving current) ≡ occurrences i current
unfolding next_ordered_ids
occurrences-next i position moving current once single known =
    let remaining = remaining_ids moving current in
    let before = take (position - 1) remaining in
    let after = drop (position - 1) remaining in
    let halves : occurrences i before + occurrences i after ≡ occurrences i remaining =
      sym (occurrences-append i before after)
      ∙ ap (occurrences i) (take-append-drop (position - 1) remaining) in
    let sum =
      once-split (occurrences i current) (occurrences i moving) (occurrences i remaining)
        (stop_in i moving) once single (occurrences-of_in i moving)
        (λ h. occurrences-of_in i current (all_in-in i moving current known h))
        (occurrences-of_not_in i moving) (occurrences-remaining_ids i moving current) in
    omega (
      arith,
      occurrences-append i before (moving ++ after),
      occurrences-append i moving after,
      halves,
      sum,
    )

-- A block move that is accepted neither loses a stop nor doubles one: every id that stands at most
-- once in the old order stands as often in the new one.
pub move_group-occurrences :
    (i : ℕ) (current route_stop_ids : List ℕ) (anchor_stop_id position : ℕ) (next : List ℕ)
    → occurrences i current ≤ 1
    → move_group current route_stop_ids anchor_stop_id position ≡ ok next
    → occurrences i next ≡ occurrences i current
unfolding move_group order_group parse_route_stop_ids next_ordered_ids
move_group-occurrences i current route_stop_ids anchor position next once e =
    let parsed = >>=-eq-ok (parse_route_stop_ids route_stop_ids) _ e in
    let moving = parsed.0 in
    let filled = >>=-eq-ok (guard (is_filled_ids route_stop_ids) validation_failed) _ parsed.1 in
    let few =
      >>=-eq-ok (guard (leb (length route_stop_ids) max_route_stop_ids) validation_failed) _
        filled.2 in
    let single = unique_ids-once i [] route_stop_ids moving few.2 in
    let g1 = >>=-eq-ok (guard (is_filled_ids current) validation_failed) _ parsed.2 in
    let g2 = >>=-eq-ok (guard (stop_in anchor current) validation_failed) _ g1.2 in
    let g3 = >>=-eq-ok (guard (not (stop_in anchor moving)) validation_failed) _ g2.2 in
    let g4 = >>=-eq-ok (guard (all_in moving current) validation_failed) _ g3.2 in
    let known = guard-true (all_in moving current) g4.1 in
    let g5 =
      >>=-eq-ok
        (guard (leb 1 position && leb position (length (remaining_ids moving current) + 1))
          validation_failed)
        _ g4.2 in
    let whole : next_ordered_ids position moving current ≡ next = cc in
    ap (occurrences i) (sym whole) ∙ occurrences-next i position moving current once single known
