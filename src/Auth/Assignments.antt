-- ===== src/Auth/Assignments.antt =====
-- Delivery_app_BK/services/commands/auth: register_trusted_device.py, assign_trusted_device_user.py and
-- remove_trusted_device_user.py.
use next_mark_backend_v.Prelude.{ℕ, String, true, false, not, Option, none, some, List, [], ◌∷◌}
use next_mark_backend_v.Prelude.Rows.{find, any, modify, add}
use next_mark_backend_v.Result.{
  Result, ok, validation_failed, not_found, integrity_error, ◌>>=◌, ◌>>◌, guard,
}
use next_mark_backend_v.Auth.TrustedDevice.{
  TrustedDevice, TrustedDeviceUser, Store, Caller, Platform, device_registered, user_assigned,
  user_removed, hash_device_secret, has_id, links, links_actively,
}
use next_mark_backend_v.Auth.Common.{
  User, load_team_device, load_team_user_by_client_id, record_trusted_device_event,
}

abbrev pub new_assignment : ℕ → Caller → ℕ → ℕ → TrustedDeviceUser
new_assignment now ctx device_id user_id = record {
  trusted_device_id = device_id;
  user_id = user_id;
  is_active = true;
  created_at = now;
  created_by_user_id = ctx.user_id;
  revoked_at = none;
  revoked_by_user_id = none;
}

abbrev pub reactivate : ℕ → Caller → TrustedDeviceUser → TrustedDeviceUser
reactivate now ctx row = record row {
  is_active = true;
  revoked_at = none;
  revoked_by_user_id = none;
  created_by_user_id = ctx.user_id;
  created_at = now;
}

-- The rows of the assignments after `user` is assigned; `existing` is the row of the pair.
unfoldable pub assigned_rows :
    ℕ
    → Caller
    → ℕ
    → ℕ
    → Option TrustedDeviceUser
    → List TrustedDeviceUser
    → Result (List TrustedDeviceUser)
assigned_rows now ctx device_id user_id none rows =
    ok (add (new_assignment now ctx device_id user_id) rows)
assigned_rows now ctx device_id user_id (some existing) rows = do
  guard (not existing.is_active) validation_failed
  ok (modify (links device_id user_id) (reactivate now ctx) rows)

unfoldable pub assign_trusted_device_user :
    ℕ → List User → Caller → String → String → Store → Result Store
unfolding load_team_device load_team_user_by_client_id assigned_rows record_trusted_device_event
assign_trusted_device_user now users ctx device_client_id user_client_id store = do
  device ← load_team_device ctx device_client_id store
  user ← load_team_user_by_client_id ctx user_client_id users
  rows ←
      assigned_rows now ctx device.id user.id (find (links device.id user.id) store.assignments)
        store.assignments
  ok (
      record_trusted_device_event ctx user_assigned device (some user.id)
        (record store { assignments = rows }))

abbrev pub deactivate : ℕ → Caller → TrustedDeviceUser → TrustedDeviceUser
deactivate now ctx row = record row {
  is_active = false;
  revoked_at = some now;
  revoked_by_user_id = ctx.user_id;
}

unfoldable pub remove_trusted_device_user :
    ℕ → List User → Caller → String → String → Store → Result Store
unfolding load_team_device load_team_user_by_client_id record_trusted_device_event
remove_trusted_device_user now users ctx device_client_id user_client_id store = do
  device ← load_team_device ctx device_client_id store
  user ← load_team_user_by_client_id ctx user_client_id users
  guard (any (links_actively device.id user.id) store.assignments) not_found
  ok (
      record_trusted_device_event ctx user_removed device (some user.id) (record store {
        assignments =
            modify (links_actively device.id user.id) (deactivate now ctx) store.assignments;
      }))

-- The loop over `request.user_client_ids`; the pair of device and user is unique.
unfoldable pub assign_all :
    ℕ → List User → Caller → TrustedDevice → List String → Store → Result Store
unfolding load_team_user_by_client_id record_trusted_device_event
assign_all now users ctx device [] store = ok store
assign_all now users ctx device (user_client_id ∷ rest) store = do
  user ← load_team_user_by_client_id ctx user_client_id users
  guard (not (any (links device.id user.id) store.assignments)) integrity_error
  assign_all now users ctx device rest (
      record_trusted_device_event ctx user_assigned device (some user.id) (record store {
        assignments = add (new_assignment now ctx device.id user.id) store.assignments;
      }))

abbrev pub new_device : ℕ → ℕ → String → String → String → Caller → TrustedDevice
new_device now device_id client_id name hashed ctx = record {
  id = device_id;
  client_id = client_id;
  team_id = ctx.team_id;
  name = name;
  device_secret_hash = hashed;
  is_active = true;
  last_used_at = none;
  updated_at = now;
  registered_by_user_id = ctx.user_id;
  revoked_at = none;
  revoked_by_user_id = none;
}

-- `device_id` is the key that the database draws and `client_id` the text of `generate_client_id`.
unfoldable pub register_trusted_device :
    Platform
    → ℕ
    → ℕ
    → String
    → String
    → String
    → List String
    → List User
    → Caller
    → Store
    → Result Store
unfolding hash_device_secret record_trusted_device_event assign_all
register_trusted_device platform now device_id client_id raw_secret name user_client_ids users ctx
      store =
    do
      hashed ← hash_device_secret platform raw_secret
      guard (not (any (has_id device_id) store.devices)) integrity_error
      let device = new_device now device_id client_id name hashed ctx in
          assign_all now users ctx device user_client_ids (
            record_trusted_device_event ctx device_registered device none
              (record store { devices = add device store.devices }))
