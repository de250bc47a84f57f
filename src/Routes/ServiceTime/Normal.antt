-- ===== src/Routes/ServiceTime/Normal.antt =====
-- The normal form of a service time, and the duration that comes of it.
use next_mark_backend_v.Prelude.{ℕ, ◌+◌, ◌*◌, ◌≡◌, refl, true, false, not, ◌&&◌, Option, none, some}
use next_mark_backend_v.Prelude.Rows.{is_some}
use next_mark_backend_v.Result.{ok, validation_failed, OnOk, OnOk-guard}
use next_mark_backend_v.Routes.ServiceTime.{
  Payload, null, not_an_object, object, ServiceTime, coerced, is_bad, lenient, first_given,
  service_time_of, payload_or_null, normalize_service_time_payload,
  resolve_effective_service_time_payload, calculate_service_time_seconds,
  resolve_expected_service_duration_seconds,
}

again : (s : Option ServiceTime) → normalize_service_time_payload false (payload_or_null s) ≡ ok s
unfolding normalize_service_time_payload
again none = refl
again (some s) = refl

-- What the strict call returns, the other call returns too, and a normal form is its own normal form.
pub normalize-lenient :
    (payload : Payload)
    → OnOk
        (λ s.
          (normalize_service_time_payload false payload ≡ ok s)
          × (normalize_service_time_payload false (payload_or_null s) ≡ ok s))
        (normalize_service_time_payload true payload)
unfolding normalize_service_time_payload
normalize-lenient null = (refl, refl)
normalize-lenient not_an_object = tt
normalize-lenient (object t p) =
    let P : Option ServiceTime → Type 0 = λ s.
      (normalize_service_time_payload false (object t p) ≡ ok s)
      × (normalize_service_time_payload false (payload_or_null s) ≡ ok s) in
    OnOk-guard P (not (not (is_some t) && not (is_some p))) validation_failed _ (λ _.
      OnOk-guard P (not (is_bad t)) validation_failed _ (λ _.
        OnOk-guard P (not (is_bad p)) validation_failed _
          (λ _. (refl, again (service_time_of (coerced t) (coerced p))))))

abbrev seconds_of : ℕ → ServiceTime → ℕ
seconds_of n s = s.time + n * s.per_item

abbrev pub expected : ℕ → Option ServiceTime → Option ServiceTime → Option ℕ → Option ℕ
expected n none none legacy = legacy
expected n none (some s) legacy = some (seconds_of n s)
expected n (some s) route legacy = some (seconds_of n s)

expected_of :
    (n : ℕ) (stop route : Option ServiceTime) (legacy : Option ℕ)
    → elim (calculate_service_time_seconds (payload_or_null (first_given stop route)) n) [
      | none ↦ legacy
      | some seconds ↦ some seconds
    ]
      ≡ expected n stop route legacy
unfolding calculate_service_time_seconds normalize_service_time_payload
expected_of n none none legacy = refl
expected_of n none (some s) legacy = refl
expected_of n (some s) route legacy = refl

-- The expected duration of a stop is the time of its own payload for the order's items, or that of
-- the route's payload where the stop has none, or else the old duration.
pub resolve_expected-lem :
    (stop route : Payload) (n : ℕ) (legacy : Option ℕ)
    → resolve_expected_service_duration_seconds stop route n legacy
      ≡ expected n
          (lenient (normalize_service_time_payload false stop))
          (lenient (normalize_service_time_payload false route))
          legacy
unfolding resolve_expected_service_duration_seconds calculate_service_time_seconds
    resolve_effective_service_time_payload
resolve_expected-lem stop route n legacy =
    expected_of n (lenient (normalize_service_time_payload false stop))
      (lenient (normalize_service_time_payload false route)) legacy
