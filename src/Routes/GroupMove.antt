-- ===== src/Routes/GroupMove.antt =====
-- Moving a block of stops: `update_route_stop_group_position` of Delivery_app_BK/services/commands/
-- route_plan/local_delivery/route_solution/stops/update_route_stop_group_position.py, with the ids
-- that its request parser lets through.
pub mod Permuted
use next_mark_backend_v.Prelude.{
  ℕ, zero, suc, ◌+◌, ◌-◌, Bool, true, false, not, ◌&&◌, ◌||◌, List, [], ◌∷◌, ◌++◌, ◌==◌, ltb, leb,
  length, take, drop, if◌then◌else◌,
}
use next_mark_backend_v.Result.{Result, ok, err, validation_failed, ◌>>=◌, ◌>>◌, guard}

abbrev pub max_route_stop_ids : ℕ
max_route_stop_ids = 500

unfoldable pub stop_in : ℕ → List ℕ → Bool
stop_in i [] = false
stop_in i (j ∷ js) = j == i || stop_in i js

abbrev pub is_filled_ids : List ℕ → Bool
is_filled_ids [] = false
is_filled_ids (i ∷ is) = true

-- The loop of `_parse_route_stop_ids`: each id once, in the order of the request.
unfoldable pub unique_ids : List ℕ → List ℕ → Result (List ℕ)
unfolding stop_in
unique_ids seen [] = ok []
unique_ids seen (i ∷ is) =
    let skipped = unique_ids seen is in
    let kept = unique_ids (i ∷ seen) is in
    do
      guard (ltb 0 i) validation_failed
      if stop_in i seen then skipped else (do rest ← kept; ok (i ∷ rest))

unfoldable pub parse_route_stop_ids : List ℕ → Result (List ℕ)
unfolding unique_ids
parse_route_stop_ids value = do
  guard (is_filled_ids value) validation_failed
  guard (leb (length value) max_route_stop_ids) validation_failed
  unique_ids [] value

unfoldable pub remaining_ids : List ℕ → List ℕ → List ℕ
unfolding stop_in
remaining_ids moving [] = []
remaining_ids moving (i ∷ is) =
    let rest = remaining_ids moving is in if stop_in i moving then rest else i ∷ rest

-- `missing_route_stop_ids` is empty.
unfoldable pub all_in : List ℕ → List ℕ → Bool
unfolding stop_in
all_in [] ids = true
all_in (i ∷ is) ids = stop_in i ids && all_in is ids

unfoldable pub next_ordered_ids : ℕ → List ℕ → List ℕ → List ℕ
unfolding remaining_ids
next_ordered_ids position moving current =
    let insert_index = position - 1 in
    let remaining = remaining_ids moving current in
    take insert_index remaining ++ (moving ++ drop insert_index remaining)

-- The ids of the stops in their new order; `current` are the ids in the order of `stop_order`.
unfoldable pub order_group : List ℕ → List ℕ → ℕ → ℕ → Result (List ℕ)
unfolding stop_in all_in next_ordered_ids
order_group current moving anchor_stop_id position = do
  guard (is_filled_ids current) validation_failed
  guard (stop_in anchor_stop_id current) validation_failed
  guard (not (stop_in anchor_stop_id moving)) validation_failed
  guard (all_in moving current) validation_failed
  guard (leb 1 position && leb position (length (remaining_ids moving current) + 1))
      validation_failed
  ok (next_ordered_ids position moving current)

unfoldable pub move_group : List ℕ → List ℕ → ℕ → ℕ → Result (List ℕ)
unfolding parse_route_stop_ids order_group
move_group current route_stop_ids anchor_stop_id position = do
  moving ← parse_route_stop_ids route_stop_ids
  order_group current moving anchor_stop_id position

unfoldable pub first_changed_index : List ℕ → List ℕ → ℕ
first_changed_index (i ∷ current) (j ∷ next) =
    let rest = first_changed_index current next in if i == j then suc rest else zero
first_changed_index _ _ = zero
