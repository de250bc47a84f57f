-- ===== src/Orders/DeliveryWindows/Sound.antt =====
-- What the windows of an accepted request are like.
use next_mark_backend_v.Prelude.{
  ℕ, suc, ◌≤◌, ◌<◌, ◌≡◌, refl, ◌∙◌, subst, true, false, some, List, [], ◌∷◌, leb, length, arith,
}
use next_mark_backend_v.Prelude.Sorting.{
  All, sort, All-map, sort-All, length-sort, sort-IsSorted, IsSorted,
}
use next_mark_backend_v.Result.{ok, delivery_window_limit_exceeded, guard, >>=-eq-ok}
use next_mark_backend_v.Orders.DeliveryWindows.{
  RawRow, ParsedOrderDeliveryWindow, parse_row, parse_rows, is_window_type, starts_first,
  sort_delivery_windows, validate_non_overlapping_delivery_windows,
  validate_and_normalize_delivery_windows, max_order_delivery_windows,
}

-- A window that has begun no earlier than `now`, is not empty and has an allowed type.
abbrev pub Acceptable : ℕ → ParsedOrderDeliveryWindow → Type 0
Acceptable now w =
    (now ≤ w.start_at) × (w.start_at < w.end_at) × (is_window_type w.window_type ≡ true)

-- Each window ends before every later one begins.
abbrev pub Apart : List ParsedOrderDeliveryWindow → Type 0
Apart [] = Unit
Apart (w ∷ ws) = All (λ v. w.end_at ≤ v.start_at) ws × Apart ws

parse_row-Acceptable :
    (now : ℕ) (row : RawRow) (w : ParsedOrderDeliveryWindow)
    → parse_row now row ≡ ok w
    → Acceptable now w
unfolding parse_row
parse_row-Acceptable now row w e = ground arith

parse_rows-Acceptable :
    (now : ℕ) (rows : List RawRow) (ws : List ParsedOrderDeliveryWindow)
    → parse_rows now rows ≡ ok ws
    → All (Acceptable now) ws × (length ws ≡ length rows)
unfolding parse_rows
parse_rows-Acceptable now [] [] e = (tt, refl)
parse_rows-Acceptable now [] (w ∷ ws) e = absurd (cc)
parse_rows-Acceptable now (row ∷ rows) ws e =
    let first = >>=-eq-ok (parse_row now row) _ e in
    let others = >>=-eq-ok (parse_rows now rows) _ first.2 in
    let rest = parse_rows-Acceptable now rows others.0 others.1 in
    let whole : first.0 ∷ others.0 ≡ ws = cc in
    subst (λ l. All (Acceptable now) l × (length l ≡ suc (length rows))) whole
      ((parse_row-Acceptable now row first.0 first.1, rest.0), omega (arith, rest.1))

starts_first-total :
    (v w : ParsedOrderDeliveryWindow) → starts_first v w ≡ false → starts_first w v ≡ true
unfolding starts_first
starts_first-total v w e = ground arith

starts_first_trans :
    (u v w : ParsedOrderDeliveryWindow)
    → starts_first u v ≡ true
    → starts_first v w ≡ true
    → starts_first u w ≡ true
unfolding starts_first
starts_first_trans u v w h k = ground arith

starts_first-le :
    (v w : ParsedOrderDeliveryWindow) → starts_first v w ≡ true → v.start_at ≤ w.start_at
unfolding starts_first
starts_first-le v w e = ground arith

-- The check of neighbours is enough on sorted windows.
validate-Apart :
    (ws : List ParsedOrderDeliveryWindow)
    → IsSorted starts_first ws
    → validate_non_overlapping_delivery_windows ws ≡ ok tt
    → Apart ws
unfolding validate_non_overlapping_delivery_windows
validate-Apart [] s e = tt
validate-Apart (w ∷ []) s e = (tt, tt)
validate-Apart (w ∷ v ∷ ws) s e =
    let before : w.end_at ≤ v.start_at = ground arith in
    let rest : validate_non_overlapping_delivery_windows (v ∷ ws) ≡ ok tt = ground arith in
    (
      (before, All-map ws (λ u h. omega (arith, starts_first-le v u h)) s.1.0),
      validate-Apart (v ∷ ws) s.1 rest,
    )

-- What an accepted request gives: as many windows as it has rows, at most 14, each not begun
-- before now, not empty and of an allowed type, in order, and each over before the next begins.
pub validate_and_normalize-Sound :
    (now : ℕ) (rows : List RawRow) (ws : List ParsedOrderDeliveryWindow)
    → validate_and_normalize_delivery_windows now (some rows) ≡ ok ws
    → (length ws ≡ length rows)
      × (length ws ≤ max_order_delivery_windows)
      × All (Acceptable now) ws
      × Apart ws
unfolding validate_and_normalize_delivery_windows sort_delivery_windows
validate_and_normalize-Sound now rows ws e =
    let few =
      >>=-eq-ok
        (guard (leb (length rows) max_order_delivery_windows) delivery_window_limit_exceeded) _ e in
    let parsed = >>=-eq-ok (parse_rows now rows) _ few.2 in
    let apart =
      >>=-eq-ok (validate_non_overlapping_delivery_windows (sort_delivery_windows parsed.0)) _
        parsed.2 in
    let good = parse_rows-Acceptable now rows parsed.0 parsed.1 in
    let same : sort starts_first parsed.0 ≡ ws = cc in
    let count : length rows ≤ max_order_delivery_windows = ground arith in
    subst
      (λ l.
        (length l ≡ length rows)
        × (length l ≤ max_order_delivery_windows)
        × All (Acceptable now) l
        × Apart l)
      same
      (
        length-sort starts_first parsed.0 ∙ good.1,
        omega (arith, length-sort starts_first parsed.0, good.1),
        sort-All starts_first (Acceptable now) parsed.0 good.0,
        validate-Apart (sort starts_first parsed.0)
            (sort-IsSorted starts_first starts_first-total starts_first_trans parsed.0) apart.1,
      )
