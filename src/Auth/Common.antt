-- ===== src/Auth/Common.antt =====
-- Delivery_app_BK/services/commands/auth/trusted_device_common.py and trusted_device_audit.py: what the
-- commands on trusted devices share.
use next_mark_backend_v.Prelude.{ℕ, String, ◌&&◌, not, Option, none, some, List, str_eq}
use next_mark_backend_v.Prelude.Rows.{find, modify, add}
use next_mark_backend_v.Result.{Result, ok, err, validation_failed, not_found, ◌>>◌, guard}
use next_mark_backend_v.Transitions.Ids.{same_id}
use next_mark_backend_v.Auth.TrustedDevice.{
  TrustedDevice, EventName, Store, Caller, is_empty, has_id,
}

-- The columns of `User` that are read here.
pub record User : Type 0 where
  pub id : ℕ
  pub client_id : String
  pub team_id : Option ℕ
  pub username : Option String

abbrev pub required {ℓ} : {A : Type ℓ} → Option A → Result A
required none = err not_found
required (some a) = ok a

unfoldable pub load_team_device : Caller → String → Store → Result TrustedDevice
load_team_device ctx device_client_id store = do
  guard (not (is_empty device_client_id)) validation_failed
  required (
      find (λ row. str_eq row.client_id device_client_id && same_id row.team_id ctx.team_id)
        store.devices)

unfoldable pub load_team_user_by_client_id : Caller → String → List User → Result User
load_team_user_by_client_id ctx user_client_id users = do
  guard (not (is_empty user_client_id)) validation_failed
  required
      (find (λ row. str_eq row.client_id user_client_id && same_id row.team_id ctx.team_id) users)

unfoldable pub record_trusted_device_event :
    Caller → EventName → TrustedDevice → Option ℕ → Store → Store
record_trusted_device_event ctx event_name device target_user_id store = record store {
  events =
      add
        (record {
          event_name = event_name;
          trusted_device_id = device.id;
          initiating_user_id = ctx.user_id;
          target_user_id = target_user_id;
          team_id = ctx.team_id;
        })
        store.events;
}

-- A write to the columns of a device that was loaded.
abbrev pub write_device : (TrustedDevice → TrustedDevice) → TrustedDevice → Store → Store
write_device change device store = record store {
  devices = modify (has_id device.id) change store.devices;
}
