-- ===== src/Auth/Trace/Writes.antt =====
-- What the commands keep that write to a device.
use next_mark_backend_v.Prelude.{
  arith, ℕ, ◌≡◌, refl, String, true, ◌&&◌, ◌||◌, not, Option, none, some, List,
}
use next_mark_backend_v.Prelude.Rows.{modify, is_some}
use next_mark_backend_v.Result.{
  ok, ◌>>=◌, OnOk, OnOk->>=, OnOk->>=_of, OnOk-guard, OnOk-if, validation_failed,
}
use next_mark_backend_v.Auth.TrustedDevice.{
  TrustedDevice, TrustedDeviceUser, Store, Caller, Platform, has_id, hash_device_secret, stamp_row,
  accept, resolve_trusted_device, authenticate, stamp_last_used, is_empty, or_empty,
}
use next_mark_backend_v.Auth.Common.{load_team_device, record_trusted_device_event}
use next_mark_backend_v.Auth.Devices.{
  revoke_row, rotate_row, update_row, DeviceUpdate, revoke_trusted_device,
  rotate_trusted_device_secret, update_trusted_device,
}

-- What a write does to a device: its id stays, and so does its revocation.
abbrev pub Written : TrustedDevice → TrustedDevice → Type 0
Written before after =
    (after.id ≡ before.id) × ((is_some after.revoked_at || not (is_some before.revoked_at)) ≡ true)

-- A predicate on the devices and one on the assignments.
abbrev pub Holds :
    (List TrustedDevice → Type 0) → (List TrustedDeviceUser → Type 0) → Store → Type 0
Holds P Q store = P store.devices × Q store.assignments

kept : (row : TrustedDevice) → (is_some row.revoked_at || not (is_some row.revoked_at)) ≡ true
kept row = ground arith

pub revoke_row-Written :
    (now : ℕ) (u : Option ℕ) (row : TrustedDevice) → Written row (revoke_row now u row)
revoke_row-Written now u row =
    elim row.revoked_at
      as (λ o.
        Written (record row { revoked_at = o })
          (revoke_row now u (record row { revoked_at = o }))) [
            | none ↦ (refl, refl)
            | some t ↦ (refl, refl)
          ]

module _ (P : List TrustedDevice → Type 0) (Q : List TrustedDeviceUser → Type 0)
    (write : (i : ℕ) (f : TrustedDevice → TrustedDevice) (rows : List TrustedDevice)
      → ((row : TrustedDevice) → Written row (f row))
      → P rows
      → P (modify (has_id i) f rows)) where
  written :
      (i : ℕ) (f : TrustedDevice → TrustedDevice) (store : Store)
      → ((row : TrustedDevice) → Written row (f row))
      → Holds P Q store
      → (Holds P Q) (record store { devices = modify (has_id i) f store.devices })
  written i f store w h = (write i f store.devices w h.0, h.1)

  pub revoke-Holds :
      (now : ℕ) (ctx : Caller) (c : String) (store : Store)
      → Holds P Q store
      → OnOk (Holds P Q) (revoke_trusted_device now ctx c store)
  unfolding revoke_trusted_device record_trusted_device_event
  revoke-Holds now ctx c store h =
      OnOk->>= (Holds P Q) (load_team_device ctx c store) _ (λ device _.
        written device.id (revoke_row now ctx.user_id) store (revoke_row-Written now ctx.user_id) h)

  pub rotate-Holds :
      (platform : Platform) (now : ℕ) (s : String) (ctx : Caller) (c : String) (store : Store)
      → Holds P Q store
      → OnOk (Holds P Q) (rotate_trusted_device_secret platform now s ctx c store)
  unfolding rotate_trusted_device_secret record_trusted_device_event
  rotate-Holds platform now s ctx c store h =
      OnOk->>= (Holds P Q) (load_team_device ctx c store) _ (λ device _.
        OnOk->>= (Holds P Q) (hash_device_secret platform s) _
          (λ hashed _. written device.id (rotate_row now hashed) store (λ row. (refl, kept row)) h))

  pub update-Holds :
      (now : ℕ) (fields : DeviceUpdate) (ctx : Caller) (c : String) (store : Store)
      → Holds P Q store
      → OnOk (Holds P Q) (update_trusted_device now fields ctx c store)
  unfolding update_trusted_device record_trusted_device_event
  update-Holds now fields ctx c store h =
      OnOk-guard (Holds P Q) (is_some fields.name || is_some fields.is_active) validation_failed _
        (λ _.
          OnOk->>= (Holds P Q) (load_team_device ctx c store) _ (λ device _.
            written device.id (update_row now fields) store (λ row. (refl, kept row)) h))

  accept-Holds :
      (platform : Platform) (now : ℕ) (client_id secret : String) (store : Store)
      → Holds P Q store
      → OnOk (λ found. Holds P Q found.1) (accept platform now client_id secret store)
  unfolding accept stamp_last_used
  accept-Holds platform now client_id secret store h =
      OnOk->>= (λ found. Holds P Q found.1) (authenticate platform client_id secret store.devices) _
        (λ device _. written device.id (stamp_row now) store (λ row. (refl, kept row)) h)

  resolve_trusted_device-Holds :
      (platform : Platform) (now : ℕ) (ctx : Caller) (store : Store)
      → Holds P Q store
      → OnOk (λ found. Holds P Q found.1) (resolve_trusted_device platform now ctx store)
  unfolding resolve_trusted_device
  resolve_trusted_device-Holds platform now ctx store h =
      let client_id = platform.strip (or_empty ctx.trusted_device_client_id) in
      let secret = or_empty ctx.trusted_device_secret in
      let P : Option TrustedDevice × Store → Type 0 = λ found. Holds P Q found.1 in
      OnOk-if P (is_empty client_id && is_empty secret) _ _ h (
        OnOk-if P (is_empty client_id || is_empty secret) _ _ tt
          (accept-Holds platform now client_id secret store h))

  pub present-Holds :
      (platform : Platform) (now : ℕ) (ctx : Caller) (store : Store)
      → Holds P Q store
      → OnOk (Holds P Q) (resolve_trusted_device platform now ctx store >>= λ found. ok found.1)
  present-Holds platform now ctx store h =
      OnOk->>=_of (λ found. Holds P Q found.1) (Holds P Q)
        (resolve_trusted_device platform now ctx store) (λ found. ok found.1)
        (resolve_trusted_device-Holds platform now ctx store h) (λ _ holds. holds)
