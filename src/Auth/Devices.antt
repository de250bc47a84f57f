-- ===== src/Auth/Devices.antt =====
-- Delivery_app_BK/services/commands/auth: revoke_trusted_device.py, rotate_trusted_device_secret.py and
-- update_trusted_device.py.
use next_mark_backend_v.Prelude.{ℕ, String, Bool, false, ◌||◌, Option, none, some}
use next_mark_backend_v.Prelude.Rows.{is_some}
use next_mark_backend_v.Result.{Result, ok, validation_failed, ◌>>=◌, ◌>>◌, guard}
use next_mark_backend_v.Auth.TrustedDevice.{
  TrustedDevice, Store, Caller, Platform, device_updated, device_revoked, device_secret_rotated,
  hash_device_secret,
}
use next_mark_backend_v.Auth.Common.{load_team_device, record_trusted_device_event, write_device}

abbrev pub revoke_row : ℕ → Option ℕ → TrustedDevice → TrustedDevice
revoke_row now user_id row = elim row.revoked_at [
  | none ↦ record row {
    is_active = false;
    revoked_at = some now;
    revoked_by_user_id = user_id;
    updated_at = now;
  }
  | some _ ↦ record row { is_active = false; updated_at = now }
]

unfoldable pub revoke_trusted_device : ℕ → Caller → String → Store → Result Store
unfolding load_team_device record_trusted_device_event
revoke_trusted_device now ctx device_client_id store = do
  device ← load_team_device ctx device_client_id store
  ok (
      record_trusted_device_event ctx device_revoked device none
        (write_device (revoke_row now ctx.user_id) device store))

abbrev pub rotate_row : ℕ → String → TrustedDevice → TrustedDevice
rotate_row now hashed row = record row { device_secret_hash = hashed; updated_at = now }

-- `raw_secret` is what `generate_device_secret` returns.
unfoldable pub rotate_trusted_device_secret :
    Platform → ℕ → String → Caller → String → Store → Result Store
unfolding load_team_device hash_device_secret record_trusted_device_event
rotate_trusted_device_secret platform now raw_secret ctx device_client_id store = do
  device ← load_team_device ctx device_client_id store
  hashed ← hash_device_secret platform raw_secret
  ok (
      record_trusted_device_event ctx device_secret_rotated device none
        (write_device (rotate_row now hashed) device store))

-- The fields that the request provides; it provides one at least.
pub record DeviceUpdate : Type 0 where
  pub name : Option String
  pub is_active : Option Bool

abbrev pub provided {ℓ} : {A : Type ℓ} → Option A → A → A
provided none old = old
provided (some new) old = new

abbrev pub update_row : ℕ → DeviceUpdate → TrustedDevice → TrustedDevice
update_row now request row = record row {
  name = provided request.name row.name;
  is_active = provided request.is_active row.is_active;
  updated_at = now;
}

unfoldable pub update_trusted_device : ℕ → DeviceUpdate → Caller → String → Store → Result Store
unfolding load_team_device record_trusted_device_event
update_trusted_device now request ctx device_client_id store = do
  guard (is_some request.name || is_some request.is_active) validation_failed
  device ← load_team_device ctx device_client_id store
  ok (
      record_trusted_device_event ctx device_updated device none
        (write_device (update_row now request) device store))
