-- ===== src/Auth/Trace/Revoked.antt =====
-- A revoked device stays revoked.
use next_mark_backend_v.Prelude.{
  arith, ℕ, ◌≡◌, refl, subst, inl, inr, String, Bool, true, false, ◌&&◌, ◌||◌, Option, none, some,
  List, Bool-cases,
}
use next_mark_backend_v.Prelude.Rows.{find, OnSome, find-All, find_sound}
use next_mark_backend_v.Result.{
  ok, err, OnOk, OnOk->>=, OnOk->>=_of, OnOk-guard, OnOk-if, validation_failed,
}
use next_mark_backend_v.Auth.TrustedDevice.{
  TrustedDevice, Store, Caller, Platform, trusted_device, has_id, has_client_id, live_device,
  is_live, authenticate, accept, verify_device_secret, resolve_trusted_device,
  resolve_refresh_trusted_device, is_empty, or_empty,
}
use next_mark_backend_v.Auth.Common.{load_team_device}
use next_mark_backend_v.Auth.Devices.{revoke_trusted_device}
use next_mark_backend_v.Auth.Trace.{Request, Command, run_all}
use next_mark_backend_v.Auth.Trace.WellFormed.{WellFormed}
use next_mark_backend_v.Auth.Trace.Closed.{is_closed, Closed, run_all-Closed, revoke-Closed}

-- Whether a call found the device.
abbrev pub found_device : ℕ → Option TrustedDevice → Bool
found_device i none = false
found_device i (some device) = has_id i device

live_device-closed :
    (i : ℕ) (o : Option TrustedDevice)
    → OnSome (λ row. is_closed i row ≡ true) o
    → OnOk (λ device. has_id i device ≡ false) (live_device o)
unfolding is_live
live_device-closed i none h = tt
live_device-closed i (some row) h = elim (Bool-cases (is_live row)) [
  | inl live ↦ rw live (ground arith)
  | inr dead ↦ rw dead tt
]

live_device-dead :
    (i : ℕ) (o : Option TrustedDevice)
    → OnSome (λ row. is_closed i row ≡ true) o
    → OnSome (λ row. has_id i row ≡ true) o
    → live_device o ≡ err validation_failed
unfolding is_live
live_device-dead i none h own = refl
live_device-dead i (some row) h own = let dead : is_live row ≡ false = ground arith in rw dead refl

module _ (i : ℕ) (store : Store) (closed : Closed i store.devices) where
  authenticate-closed :
      (platform : Platform) (client_id secret : String)
      → OnOk
          (λ device. has_id i device ≡ false)
          (authenticate platform client_id secret store.devices)
  unfolding authenticate
  authenticate-closed platform client_id secret =
      OnOk->>=_of (λ device. has_id i device ≡ false) (λ device. has_id i device ≡ false)
        (live_device (find (has_client_id client_id) store.devices)) _
        (live_device-closed i (find (has_client_id client_id) store.devices) (
          find-All (has_client_id client_id) (λ row. is_closed i row ≡ true) store.devices
            closed.1))
        (λ device other.
          OnOk->>= (λ device. has_id i device ≡ false)
            (verify_device_secret platform secret device.device_secret_hash) _
            (λ verified _.
              OnOk-guard (λ device. has_id i device ≡ false) verified validation_failed _
                (λ _. other)))

  resolve_trusted_device-closed :
      (platform : Platform) (now : ℕ) (ctx : Caller)
      → OnOk
          (λ found. found_device i found.0 ≡ false)
          (resolve_trusted_device platform now ctx store)
  unfolding resolve_trusted_device accept
  resolve_trusted_device-closed platform now ctx =
      let client_id = platform.strip (or_empty ctx.trusted_device_client_id) in
      let secret = or_empty ctx.trusted_device_secret in
      let P : Option TrustedDevice × Store → Type 0 = λ found. found_device i found.0 ≡ false in
      OnOk-if P (is_empty client_id && is_empty secret) _ _ refl (
        OnOk-if P (is_empty client_id || is_empty secret) _ _ tt (
          OnOk->>=_of (λ device. has_id i device ≡ false) P
            (authenticate platform client_id secret store.devices) _
            (authenticate-closed platform client_id secret) (λ device other. other)))

  refresh-closed :
      (user_id : Option ℕ)
      → resolve_refresh_trusted_device
          (record {
            user_id = user_id;
            authentication_mode = trusted_device;
            trusted_device_id = some i;
          })
          store
        ≡ err validation_failed
  unfolding resolve_refresh_trusted_device
  refresh-closed user_id =
      rw
        (live_device-dead i (find (has_id i) store.devices)
          (find-All (has_id i) (λ row. is_closed i row ≡ true) store.devices closed.1)
          (find_sound (has_id i) store.devices))
        refl

-- Once a device is revoked, whatever commands follow: a request that presents a device never
-- presents this one, and a refresh of a session of this device fails.
pub revoke-run_all :
    (platform : Platform) (now later : ℕ) (ctx caller : Caller) (c : String) (user_id : Option ℕ)
    (device : TrustedDevice) (steps : List (Request × Command)) (store after : Store)
    → WellFormed store
    → load_team_device ctx c store ≡ ok device
    → revoke_trusted_device now ctx c store ≡ ok after
    → let final = run_all platform steps after in
      OnOk
        (λ found. found_device device.id found.0 ≡ false)
        (resolve_trusted_device platform later caller final)
      × (resolve_refresh_trusted_device
            (record {
              user_id = user_id;
              authentication_mode = trusted_device;
              trusted_device_id = some device.id;
            })
            final
          ≡ err validation_failed)
revoke-run_all platform now later ctx caller c user_id device steps store after h e r =
    let closed = run_all-Closed device.id platform steps after (
      subst (OnOk (λ s. Closed device.id s.devices)) r
        (revoke-Closed now ctx c device store h e)) in
    let final = run_all platform steps after in
    (
      resolve_trusted_device-closed device.id final closed platform later caller,
      refresh-closed device.id final closed user_id,
    )
