-- ===== src/Auth/Rotation.antt =====
-- Which secret a device is authenticated by after a rotation.
use next_mark_backend_v.Prelude.{
  arith, ℕ, ◌≡◌, refl, ap, ◌∙◌, subst, inl, inr, String, Bool, true, false, ◌&&◌, not, Option, none,
  some, List, [], ◌∷◌, ==_iff, str_eq, if◌then◌else◌, Bool-cases,
}
use next_mark_backend_v.Prelude.Rows.{find, any, modify, OnSome}
use next_mark_backend_v.Prelude.Distinct.{Distinct}
use next_mark_backend_v.Result.{ok, err, validation_failed, ◌>>◌, guard, OnOk}
use next_mark_backend_v.Auth.TrustedDevice.{
  TrustedDevice, Store, Caller, Platform, has_id, has_client_id, is_empty, is_live, pepper_of,
  hash_device_secret, verify_device_secret, authenticate,
}
use next_mark_backend_v.Auth.Common.{load_team_device, record_trusted_device_event}
use next_mark_backend_v.Auth.Devices.{rotate_row, rotate_trusted_device_secret}
use next_mark_backend_v.Auth.Trace.WellFormed.{same_device, WellFormed}

module _ (f : TrustedDevice → TrustedDevice) (client_id : String) where
  -- The device that a client id finds, where it stands in the rows and once it is written.
  abbrev FoundWritten : List TrustedDevice → TrustedDevice → Type 0
  FoundWritten rows device =
      (any (has_id device.id) rows ≡ true)
      × (find (has_client_id client_id) (modify (has_id device.id) f rows) ≡ some (f device))

  later_written :
      (x : TrustedDevice) (rows : List TrustedDevice) (o : Option TrustedDevice)
      → has_client_id client_id x ≡ false
      → any (same_device x) rows ≡ false
      → OnSome (FoundWritten rows) o
      → OnSome (FoundWritten (x ∷ rows)) o
  unfolding any find modify
  later_written x rows none other fresh h = tt
  later_written x rows (some device) other fresh h =
      let apart : has_id device.id x ≡ false = elim (Bool-cases (has_id device.id x)) [
        | inl same ↦ absurd (
            cc (
              subst (λ k. any (has_id k) rows ≡ false) ((==_iff x.id device.id).0 same) fresh,
              h.0,
            ))
        | inr differs ↦ differs
      ] in
      (ground (arith, h.0), rw (apart, other) h.1)

  find-written :
      (rows : List TrustedDevice)
      → ((row : TrustedDevice) → (f row).client_id ≡ row.client_id)
      → Distinct same_device rows
      → OnSome (FoundWritten rows) (find (has_client_id client_id) rows)
  unfolding any find modify
  find-written [] keep h = tt
  find-written (x ∷ rows) keep h = elim (Bool-cases (has_client_id client_id x)) [
    | inl here ↦
        let own : has_id x.id x ≡ true = ground arith in
        let still : has_client_id client_id (f x) ≡ true =
          ap (λ t. str_eq t client_id) (keep x) ∙ here in
        rw here (rw own refl, rw (own, still) refl)
    | inr other ↦ rw other (later_written x rows _ other h.0 (find-written rows keep h.1))
  ]

verify-hashed :
    (platform : Platform) (pepper secret : String) (hash : String)
    → pepper_of platform ≡ ok pepper
    → is_empty hash ≡ false
    → verify_device_secret platform secret hash
      ≡ ok (not (is_empty secret) && str_eq (platform.hmac pepper secret) hash)
unfolding verify_device_secret hash_device_secret
verify-hashed platform pepper secret hash p h = elim (Bool-cases (is_empty secret)) [
  | inl e ↦ rw e refl
  | inr e ↦ rw (e, h, p) refl
]

checked_if :
    (b : Bool) (device : TrustedDevice)
    → (guard b validation_failed >> ok device) ≡ (if b then ok device else err validation_failed)
checked_if false device = refl
checked_if true device = refl

-- What a device row with a given hash makes of a secret.
authenticate-found :
    (platform : Platform) (pepper secret client_id : String) (rows : List TrustedDevice)
    (device : TrustedDevice)
    → find (has_client_id client_id) rows ≡ some device
    → is_live device ≡ true
    → pepper_of platform ≡ ok pepper
    → is_empty device.device_secret_hash ≡ false
    → authenticate platform client_id secret rows ≡ (
        if not (is_empty secret) && str_eq (platform.hmac pepper secret) device.device_secret_hash
        then ok device
        else err validation_failed)
unfolding authenticate
authenticate-found platform pepper secret client_id rows device found live p h =
    rw (found, live, verify-hashed platform pepper secret device.device_secret_hash p h)
      (checked_if
        (not (is_empty secret) && str_eq (platform.hmac pepper secret) device.device_secret_hash)
        device)

rotate-found :
    (platform : Platform) (pepper : String) (now : ℕ) (raw : String) (ctx : Caller) (c : String)
    (device : TrustedDevice) (store : Store)
    → WellFormed store
    → load_team_device ctx c store ≡ ok device
    → find (has_client_id device.client_id) store.devices ≡ some device
    → pepper_of platform ≡ ok pepper
    → OnOk
        (λ after.
          find (has_client_id device.client_id) after.devices
          ≡ some (rotate_row now (platform.hmac pepper raw) device))
        (rotate_trusted_device_secret platform now raw ctx c store)
unfolding rotate_trusted_device_secret record_trusted_device_event hash_device_secret
rotate-found platform pepper now raw ctx c device store h e found p =
    let f = rotate_row now (platform.hmac pepper raw) in
    let written =
      subst (OnSome (FoundWritten f device.client_id store.devices)) found
        (find-written f device.client_id store.devices (λ row. refl) h.0) in
    rw (e, p) written.1

-- After the secret of a live device is rotated, a request that presents the device is let in just
-- when its secret is not empty and has the keyed hash of the new secret; the call returns the device
-- with that hash. The device is the one that its client id finds, and hashes are not empty.
pub rotate-authenticate :
    (platform : Platform) (pepper : String) (now : ℕ) (raw secret : String) (ctx : Caller)
    (c : String) (device : TrustedDevice) (store after : Store)
    → WellFormed store
    → load_team_device ctx c store ≡ ok device
    → find (has_client_id device.client_id) store.devices ≡ some device
    → is_live device ≡ true
    → pepper_of platform ≡ ok pepper
    → is_empty (platform.hmac pepper raw) ≡ false
    → rotate_trusted_device_secret platform now raw ctx c store ≡ ok after
    → authenticate platform device.client_id secret after.devices ≡ (
        if not (is_empty secret) && str_eq (platform.hmac pepper secret) (platform.hmac pepper raw)
        then ok (rotate_row now (platform.hmac pepper raw) device)
        else err validation_failed)
unfolding is_live
rotate-authenticate platform pepper now raw secret ctx c device store after h e found live p full
      r =
    authenticate-found platform pepper secret device.client_id after.devices
      (rotate_row now (platform.hmac pepper raw) device)
      (subst
        (OnOk (λ s.
          find (has_client_id device.client_id) s.devices
          ≡ some (rotate_row now (platform.hmac pepper raw) device)))
        r (rotate-found platform pepper now raw ctx c device store h e found p))
      live p full
