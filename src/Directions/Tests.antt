-- ===== src/Directions/Tests.antt =====
-- The theorems on windows and shifts at a concrete route.
use next_mark_backend_v.Prelude.{◌≡◌, ◌≢◌, ◌≤◌, ◌↔◌, ◌⊎◌, refl, true, false, none, some, [], ◌∷◌}
use next_mark_backend_v.Prelude.Sorting.{All, sort, insert}
use next_mark_backend_v.Moment.{aware, utc, ensure_utc}
use next_mark_backend_v.Directions.Windows.{
  RawWindow, WarningState, other_warning, normalize_windows, valid_windows, valid_window,
  is_arrival_inside_any_window, next_start, first_after, build_effective_windows,
}
use next_mark_backend_v.Directions.Windows.Warnings.{kept, evaluate, evaluate_again, violation_iff}
use next_mark_backend_v.Directions.Clamp.{
  Stop, target, arrival_of, resolve_group_additional_shift, clamp_groups,
}
use next_mark_backend_v.Directions.Clamp.Shift.{resolve_group_additional_shift-le}
use next_mark_backend_v.Directions.Clamp.Settled.{SettledNow, clamp_groups-SettledNow}

abbrev morning : RawWindow
morning = (some (aware 100), some (aware 200))

abbrev evening : RawWindow
evening = (some (aware 400), some (aware 500))

abbrev warned : WarningState
warned = record {
  has_constraint_violation = true;
  constraint_warnings = some (other_warning "route_end" ∷ []);
  reason_was_skipped = none;
}

evaluate_again_example :
    let once = evaluate (morning ∷ evening ∷ []) (some (aware 300)) warned in
    (kept once ≡ kept warned) × (evaluate (morning ∷ evening ∷ []) (some (aware 300)) once ≡ once)
evaluate_again_example = evaluate_again warned (some (aware 300)) (morning ∷ evening ∷ [])

violation_iff_example :
    ((evaluate (morning ∷ evening ∷ []) (some (aware 300)) warned).has_constraint_violation ≡ true)
    ↔ ((kept warned ≢ [])
        ⊎ ((normalize_windows (morning ∷ evening ∷ []) ≢ [])
            × (is_arrival_inside_any_window 300 (normalize_windows (morning ∷ evening ∷ []))
                ≡ false)))
violation_iff_example = violation_iff warned 300 (morning ∷ evening ∷ [])

abbrev plan : RawWindow
plan = (none, none)

abbrev stop : Stop
stop = record {
  id = 1;
  order = some (record { id = 4; delivery_windows = morning ∷ evening ∷ [] });
  schedule = record {
    expected_arrival_time = some (aware 250);
    expected_service_duration_seconds = none;
    expected_departure_time = none;
  };
  warnings = warned;
}

resolve_group_additional_shift-le_example : resolve_group_additional_shift (stop ∷ []) plan 20 ≤ 130
unfolding target arrival_of ensure_utc utc build_effective_windows normalize_windows valid_windows
    valid_window sort insert next_start first_after is_arrival_inside_any_window
resolve_group_additional_shift-le_example =
    resolve_group_additional_shift-le 20 130 (stop ∷ []) plan (refl, tt)

clamp_groups-SettledNow_example :
    All
      (λ group. All (SettledNow plan) group)
      (clamp_groups plan 0 ((stop ∷ []) ∷ (stop ∷ []) ∷ [])).0
clamp_groups-SettledNow_example = clamp_groups-SettledNow ((stop ∷ []) ∷ (stop ∷ []) ∷ []) plan 0
