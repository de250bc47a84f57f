-- ===== src/Vehicles/Limits.antt =====
-- Delivery_app_BK/services/domain/vehicle/compute_vehicle_warnings.py.
use next_mark_backend_v.Prelude.{
  ℕ, ◌+◌, ◌*◌, ◌≤◌, ◌≡◌, ◌↔◌, refl, Option, none, some, List, [], ◌∷◌, ◌++◌, ltb, if◌then◌else◌,
  arith,
}

-- The limits of a vehicle, the totals of a route, and what an order adds. All are integers.
pub record VehicleLimits : Type 0 where
  pub max_volume_load_cm3 : Option ℕ
  pub max_weight_load_g : Option ℕ
  pub travel_distance_limit_km : Option ℕ
  pub travel_duration_limit_minutes : Option ℕ

pub record RouteTotals : Type 0 where
  pub total_distance_meters : Option ℕ
  pub total_travel_time_seconds : Option ℕ

pub record Load : Type 0 where
  pub total_volume_cm3 : Option ℕ
  pub total_weight_g : Option ℕ

-- The kinds of warning, with the total of the route and the limit, each in its column's unit.
pub data VehicleWarning : Type 0 where
  max_volume_exceeded max_weight_exceeded max_distance_exceeded max_duration_exceeded :
      ℕ → ℕ → VehicleWarning

abbrev pub or_nothing : Option ℕ → ℕ
or_nothing none = 0
or_nothing (some n) = n

unfoldable pub total_volume : List Load → ℕ
total_volume [] = 0
total_volume (o ∷ orders) = or_nothing o.total_volume_cm3 + total_volume orders

unfoldable pub total_weight : List Load → ℕ
total_weight [] = 0
total_weight (o ∷ orders) = or_nothing o.total_weight_g + total_weight orders

unfoldable pub load_warnings : (ℕ → ℕ → VehicleWarning) → ℕ → Option ℕ → List VehicleWarning
load_warnings kind total none = []
load_warnings kind total (some limit) = if ltb limit total then kind total limit ∷ [] else []

-- `total / unit > limit`, without the division.
unfoldable pub travel_warnings :
    (ℕ → ℕ → VehicleWarning) → ℕ → Option ℕ → Option ℕ → List VehicleWarning
travel_warnings kind unit (some total) (some limit) =
    if ltb (limit * unit) total then kind total limit ∷ [] else []
travel_warnings kind unit (some total) none = []
travel_warnings kind unit none limit = []

unfoldable pub compute_vehicle_warnings :
    RouteTotals → Option VehicleLimits → List Load → List VehicleWarning
unfolding total_volume total_weight load_warnings travel_warnings
compute_vehicle_warnings route none orders = []
compute_vehicle_warnings route (some vehicle) orders =
    load_warnings max_volume_exceeded (total_volume orders) vehicle.max_volume_load_cm3
    ++ (load_warnings max_weight_exceeded (total_weight orders) vehicle.max_weight_load_g
        ++ (travel_warnings max_distance_exceeded 1000 route.total_distance_meters
              vehicle.travel_distance_limit_km
            ++ travel_warnings max_duration_exceeded 60 route.total_travel_time_seconds
                vehicle.travel_duration_limit_minutes))

-- A total that is known is within a limit that is set, both in the unit of the total.
abbrev pub Within : Option ℕ → ℕ → Option ℕ → Type 0
Within none unit limit = Unit
Within (some total) unit none = Unit
Within (some total) unit (some limit) = total ≤ limit * unit

load_warnings-nil :
    (kind : ℕ → ℕ → VehicleWarning) (total : ℕ) (limit : Option ℕ)
    → (load_warnings kind total limit ≡ []) ↔ Within (some total) 1 limit
unfolding load_warnings
load_warnings-nil kind total none = (λ e. tt, λ h. refl)
load_warnings-nil kind total (some limit) = (λ e. ground arith, λ h. ground arith)

travel_warnings-nil :
    (kind : ℕ → ℕ → VehicleWarning) (unit : ℕ) (total limit : Option ℕ)
    → (travel_warnings kind unit total limit ≡ []) ↔ Within total unit limit
unfolding travel_warnings
travel_warnings-nil kind unit none limit = (λ e. tt, λ h. refl)
travel_warnings-nil kind unit (some total) none = (λ e. tt, λ h. refl)
travel_warnings-nil kind unit (some total) (some limit) = (λ e. ground arith, λ h. ground arith)

nil-append {ℓ} : {A : Type ℓ} (xs ys : List A) → (xs ++ ys ≡ []) ↔ ((xs ≡ []) × (ys ≡ []))
nil-append [] ys = (λ e. (refl, e), λ h. h.1)
nil-append (x ∷ xs) ys = (λ e. absurd (cc), λ h. absurd (cc))

append4-nil {ℓ} :
    {A : Type ℓ} (a b c d : List A)
    → (a ++ (b ++ (c ++ d)) ≡ []) ↔ ((a ≡ []) × (b ≡ []) × (c ≡ []) × (d ≡ []))
append4-nil a b c d = (
  λ e.
      let first = (nil-append a (b ++ (c ++ d))).0 e in
      let second = (nil-append b (c ++ d)).0 first.1 in
      let third = (nil-append c d).0 second.1 in (first.0, second.0, third.0, third.1),
  λ h.
      (nil-append a (b ++ (c ++ d))).1
        (h.0, (nil-append b (c ++ d)).1 (h.1, (nil-append c d).1 (h.2, h.3))),
)

-- A route gets no warning exactly where the orders' volume and weight, the distance and the
-- duration are each within the vehicle's limit, or the limit or the total is not known.
pub compute_vehicle_warnings-nil :
    (route : RouteTotals) (vehicle : VehicleLimits) (orders : List Load)
    → (compute_vehicle_warnings route (some vehicle) orders ≡ []) ↔ (
        Within (some (total_volume orders)) 1 vehicle.max_volume_load_cm3
        × Within (some (total_weight orders)) 1 vehicle.max_weight_load_g
        × Within route.total_distance_meters 1000 vehicle.travel_distance_limit_km
        × Within route.total_travel_time_seconds 60 vehicle.travel_duration_limit_minutes)
unfolding compute_vehicle_warnings
compute_vehicle_warnings-nil route vehicle orders =
    let volume =
      load_warnings-nil max_volume_exceeded (total_volume orders) vehicle.max_volume_load_cm3 in
    let weight =
      load_warnings-nil max_weight_exceeded (total_weight orders) vehicle.max_weight_load_g in
    let distance =
      travel_warnings-nil max_distance_exceeded 1000 route.total_distance_meters
        vehicle.travel_distance_limit_km in
    let duration =
      travel_warnings-nil max_duration_exceeded 60 route.total_travel_time_seconds
        vehicle.travel_duration_limit_minutes in
    let parts =
      append4-nil
        (load_warnings max_volume_exceeded (total_volume orders) vehicle.max_volume_load_cm3)
        (load_warnings max_weight_exceeded (total_weight orders) vehicle.max_weight_load_g)
        (travel_warnings max_distance_exceeded 1000 route.total_distance_meters
          vehicle.travel_distance_limit_km)
        (travel_warnings max_duration_exceeded 60 route.total_travel_time_seconds
          vehicle.travel_duration_limit_minutes) in
    (
      λ e. (
        volume.0 (parts.0 e).0,
        weight.0 (parts.0 e).1,
        distance.0 (parts.0 e).2,
        duration.0 (parts.0 e).3,
      ),
      λ h. parts.1 (volume.1 h.0, weight.1 h.1, distance.1 h.2, duration.1 h.3),
    )
