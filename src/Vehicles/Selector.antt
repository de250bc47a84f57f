-- ===== src/Vehicles/Selector.antt =====
-- Delivery_app_BK/services/domain/vehicle/selector.py.
pub mod Eligible
use mathlib.Core.Option
use next_mark_backend_v.Prelude.{
  ℕ, String, Bool, true, false, ◌&&◌, ◌||◌, not, Option, none, some, List, [], ◌∷◌, ◌==◌, str_eq,
  if◌then◌else◌,
}
use next_mark_backend_v.Result.{Result, ok, err, validation_failed, ◌>>=◌, ◌>>◌, guard}

-- The columns of a vehicle that the query reads; `capabilities` is empty where it is NULL.
pub record Vehicle : Type 0 where
  pub id : ℕ
  pub team_id : ℕ
  pub is_active : Bool
  pub capabilities : List String

unfoldable pub is_valid_capability : String → Bool
is_valid_capability s =
    str_eq s "cold_chain"
    || str_eq s "fragile"
    || str_eq s "heavy_load"
    || str_eq s "returns"
    || str_eq s "oversized"

unfoldable pub text_in : String → List String → Bool
text_in s [] = false
text_in s (t ∷ ts) = str_eq s t || text_in s ts

unfoldable pub id_in : ℕ → List ℕ → Bool
id_in i [] = false
id_in i (j ∷ js) = i == j || id_in i js

-- `normalize` is Python's `cap.strip().lower()`.
unfoldable pub validate_capability_list : (String → String) → List String → Result (Unit {0})
unfolding is_valid_capability
validate_capability_list normalize [] = ok tt
validate_capability_list normalize (cap ∷ caps) = do
  guard (is_valid_capability (normalize cap)) validation_failed
  validate_capability_list normalize caps

-- `capabilities @> [cap]` for each required one, as it is written in the request.
unfoldable pub has_required_capabilities : List String → Vehicle → Bool
unfolding text_in
has_required_capabilities [] vehicle = true
has_required_capabilities (cap ∷ caps) vehicle =
    text_in cap vehicle.capabilities && has_required_capabilities caps vehicle

unfoldable pub is_eligible : ℕ → List String → List ℕ → Vehicle → Bool
unfolding has_required_capabilities id_in
is_eligible team_id required_capabilities excluded vehicle =
    vehicle.team_id == team_id
    && vehicle.is_active
    && has_required_capabilities required_capabilities vehicle
    && not (id_in vehicle.id excluded)

unfoldable pub eligible_ids : ℕ → List String → List ℕ → List Vehicle → List ℕ
unfolding is_eligible
eligible_ids team_id required_capabilities excluded [] = []
eligible_ids team_id required_capabilities excluded (v ∷ vehicles) =
    let rest = eligible_ids team_id required_capabilities excluded vehicles in
    if is_eligible team_id required_capabilities excluded v then v.id ∷ rest else rest

unfoldable pub first_in : List ℕ → List ℕ → Option ℕ
unfolding id_in
first_in [] ids = none
first_in (p ∷ preferred) ids = if id_in p ids then some p else first_in preferred ids

abbrev pub id_or : Option ℕ → ℕ → ℕ
id_or none d = d
id_or (some i) d = i

unfoldable pub choose_id : List ℕ → List ℕ → Option ℕ
unfolding first_in
choose_id preferred [] = none
choose_id preferred (i ∷ ids) = some (id_or (first_in preferred (i ∷ ids)) i)

-- `vehicles` is the table, in the order that the query returns. An argument that is missing in the
-- source is the empty list here.
unfoldable pub select_vehicle_for_route_solution :
    (String → String) → ℕ → List ℕ → List String → List ℕ → List Vehicle → Result (Option ℕ)
unfolding validate_capability_list eligible_ids choose_id
select_vehicle_for_route_solution normalize team_id preferred required_capabilities excluded
      vehicles =
    do
      validate_capability_list normalize required_capabilities
      ok (choose_id preferred (eligible_ids team_id required_capabilities excluded vehicles))
