-- ===== src/Vehicles/Tests.antt =====
-- The theorems on vehicles at a concrete fleet.
use next_mark_backend_v.Prelude.{refl, String, true, none, some, List, [], ◌∷◌}
use next_mark_backend_v.Vehicles.Selector.{
  Vehicle, is_valid_capability, text_in, id_in, validate_capability_list, has_required_capabilities,
  is_eligible, eligible_ids, first_in, choose_id, select_vehicle_for_route_solution,
}
use next_mark_backend_v.Vehicles.Selector.Eligible.{Promised, select-Promised}
use next_mark_backend_v.Vehicles.Limits.{VehicleLimits, RouteTotals, Load}

abbrev van : Vehicle
van = record { id = 5; team_id = 1; is_active = true; capabilities = "fragile" ∷ "returns" ∷ [] }

abbrev truck : Vehicle
truck = record { id = 6; team_id = 1; is_active = true; capabilities = "fragile" ∷ [] }

abbrev same : String → String
same s = s

select-Promised_example :
    Promised 1 (7 ∷ 6 ∷ []) ("fragile" ∷ []) (6 ∷ []) (truck ∷ van ∷ []) (some 5)
unfolding select_vehicle_for_route_solution is_valid_capability text_in id_in
    validate_capability_list has_required_capabilities is_eligible eligible_ids first_in choose_id
select-Promised_example =
    select-Promised same 1 (7 ∷ 6 ∷ []) ("fragile" ∷ []) (6 ∷ []) (truck ∷ van ∷ []) (some 5) refl

abbrev limits : VehicleLimits
limits = record {
  max_volume_load_cm3 = some 1000;
  max_weight_load_g = none;
  travel_distance_limit_km = some 120;
  travel_duration_limit_minutes = some 480;
}

abbrev totals : RouteTotals
totals = record { total_distance_meters = some 120_001; total_travel_time_seconds = some 28_800 }

abbrev loads : List Load
loads = record { total_volume_cm3 = some 600; total_weight_g = none } ∷ []
