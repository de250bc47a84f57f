-- ===== src/Auth/Tests.antt =====
-- The theorems on trusted devices at a concrete team.
use Prim.Native.String.{◌++◌}
use next_mark_backend_v.Prelude.{
  ◌≡◌, refl, true, false, not, ◌&&◌, none, some, List, [], ◌∷◌, length, ◌+◌, ◌≤◌, str_eq,
  if◌then◌else◌,
}
use next_mark_backend_v.Prelude.Rows.{find, any, modify, add}
use next_mark_backend_v.Result.{ok, err, validation_failed, ◌>>=◌, OnOk}
use next_mark_backend_v.Auth.TrustedDevice.{
  stamp_row, stamp_last_used, accept, verify_device_secret, TrustedDevice, TrustedDeviceUser, Store,
  Caller, Platform, trusted_device, is_empty, is_live, pepper_of, hash_device_secret, authenticate,
  resolve_trusted_device, resolve_refresh_trusted_device, is_user_assigned_to_device,
}
use next_mark_backend_v.Auth.Common.{
  User, load_team_device, load_team_user_by_client_id, record_trusted_device_event,
}
use next_mark_backend_v.Auth.Devices.{
  revoke_trusted_device, rotate_row, rotate_trusted_device_secret,
}
use next_mark_backend_v.Auth.Assignments.{assign_trusted_device_user, remove_trusted_device_user}
use next_mark_backend_v.Auth.Roster.{roster, link, unlink, map_ok, assign-link, remove-unlink}
use next_mark_backend_v.Auth.Tokens.{Account}
use next_mark_backend_v.Auth.Sessions.{
  Settings, LoginRequest, ordered_accounts, build_trusted_device_sessions, login_user_service,
}
use next_mark_backend_v.Workspaces.{driver_app, parse_app_scope}
use next_mark_backend_v.Auth.Sessions.Granted.{login-granted}
use next_mark_backend_v.Auth.Sessions.SignedIn.{is_ok, CanRefresh, claims_of, login-CanRefresh}
use next_mark_backend_v.Auth.Sessions.Refreshed.{Refreshes, build-Refreshes}
use next_mark_backend_v.Prelude.Sorting.{All}
use next_mark_backend_v.Auth.Rotation.{rotate-authenticate}
use next_mark_backend_v.Auth.Trace.{Request, Command, update, assign, present, committed, run_all}
use next_mark_backend_v.Auth.Trace.WellFormed.{WellFormed, run_all-WellFormed}
use next_mark_backend_v.Auth.Trace.Revoked.{found_device, revoke-run_all}

abbrev platform : Platform
platform = record { strip = λ s. s; hmac = λ key s. key ++ s; pepper = some "pepper" }

abbrev ctx : Caller
ctx = record {
  team_id = some 9;
  user_id = some 7;
  trusted_device_client_id = some "tdv_1";
  trusted_device_secret = some "old";
}

abbrev device : TrustedDevice
device = record {
  id = 1;
  client_id = "tdv_1";
  team_id = some 9;
  name = "Tablet";
  device_secret_hash = "pepperold";
  is_active = true;
  last_used_at = none;
  updated_at = 0;
  registered_by_user_id = some 7;
  revoked_at = none;
  revoked_by_user_id = none;
}

abbrev assignment : TrustedDeviceUser
assignment = record {
  trusted_device_id = 1;
  user_id = 7;
  is_active = true;
  created_at = 0;
  created_by_user_id = some 7;
  revoked_at = none;
  revoked_by_user_id = none;
}

abbrev store : Store
store = record { devices = device ∷ []; assignments = assignment ∷ []; events = [] }

abbrev users : List User
users =
    record { id = 7; client_id = "usr_7"; team_id = some 9; username = some "ann" }
    ∷ record { id = 8; client_id = "usr_8"; team_id = some 9; username = some "bob" }
    ∷ []

abbrev request : Request
request = record { now = 30; users = users; ctx = ctx }

abbrev steps : List (Request × Command)
steps =
    (request, update (record { name = none; is_active = some true }) "tdv_1")
    ∷ (request, assign "tdv_1" "usr_8")
    ∷ (request, present)
    ∷ []

abbrev revoked : Store
revoked = committed store (revoke_trusted_device 20 ctx "tdv_1" store)

store-WellFormed : WellFormed store
unfolding any
store-WellFormed = ((refl, tt), (refl, tt), (refl, tt))

revoke-run_all_example :
    let final = run_all platform steps revoked in
    OnOk
      (λ found. found_device device.id found.0 ≡ false)
      (resolve_trusted_device platform 40 ctx final)
    × (resolve_refresh_trusted_device
          (record {
            user_id = some 7;
            authentication_mode = trusted_device;
            trusted_device_id = some device.id;
          })
          final
        ≡ err validation_failed)
unfolding revoke_trusted_device load_team_device find modify add record_trusted_device_event
revoke-run_all_example =
    revoke-run_all platform 20 40 ctx ctx "tdv_1" (some 7) device steps store revoked
      store-WellFormed refl refl

run_all-WellFormed_example : WellFormed (run_all platform steps store)
run_all-WellFormed_example = run_all-WellFormed platform steps store store-WellFormed

assign-link_example :
    map_ok roster (assign_trusted_device_user 20 users ctx "tdv_1" "usr_8" store) ≡ (
      load_team_device ctx "tdv_1" store >>= λ d.
      load_team_user_by_client_id ctx "usr_8" users >>= λ u. link d.id u.id (roster store))
assign-link_example = assign-link 20 users ctx "tdv_1" "usr_8" store store-WellFormed

remove-unlink_example :
    map_ok roster (remove_trusted_device_user 20 users ctx "tdv_1" "usr_7" store) ≡ (
      load_team_device ctx "tdv_1" store >>= λ d.
      load_team_user_by_client_id ctx "usr_7" users >>= λ u. unlink d.id u.id (roster store))
remove-unlink_example = remove-unlink 20 users ctx "tdv_1" "usr_7" store store-WellFormed

abbrev rotated : Store
rotated = committed store (rotate_trusted_device_secret platform 20 "new" ctx "tdv_1" store)

rotate-authenticate_example : authenticate platform "tdv_1" "old" rotated.devices ≡ (
    if not (is_empty "old") && str_eq (platform.hmac "pepper" "old") (platform.hmac "pepper" "new")
    then ok (rotate_row 20 (platform.hmac "pepper" "new") device)
    else err validation_failed)
unfolding rotate_trusted_device_secret hash_device_secret pepper_of load_team_device find modify add
    record_trusted_device_event is_live
rotate-authenticate_example =
    rotate-authenticate platform "pepper" 20 "new" "old" ctx "tdv_1" device store rotated
      store-WellFormed refl refl refl refl refl refl

abbrev account : Account
account = record {
  id = 7;
  client_id = "usr_7";
  username = some "ann";
  email = "ann@example.com";
  workspace = record {
    id = 7;
    team_id = some 9;
    user_role_id = some 4;
    primals_team_id = some 9;
    primals_role_id = some 4;
    team_workspace_team_id = none;
    team_workspace_role_id = none;
    admin_app_current_workspace = none;
    driver_app_current_workspace = none;
  };
}

abbrev settings : Settings
settings = record {
  issuer = record {
    directory = record { roles = λ i. none; teams = λ i. none; strip = λ s. s; lower = λ s. s };
    uuid = "scope";
  };
  lower = λ s. s;
  max_users = 25;
}

build-Refreshes_example :
    OnOk
      (λ built.
        All (Refreshes store device) built.sessions
        × (length built.sessions ≤ settings.max_users)
        × (length built.sessions + built.excluded
            ≡ length (ordered_accounts settings (account ∷ []) store device account)))
      (build_trusted_device_sessions settings
        (account ∷ [])
        store
        device
        account
        (some "driver")
        none)
unfolding is_live find any is_user_assigned_to_device
build-Refreshes_example =
    build-Refreshes settings store device refl refl (account ∷ []) account (some "driver") none refl

abbrev login : LoginRequest
login = record {
  email = "ann@example.com";
  password = "x";
  app_scope = some "driver";
  time_zone = none;
}

login-CanRefresh_example :
    OnOk
      (λ r. All (CanRefresh r.1) (claims_of r.0))
      (login_user_service settings platform 20 (λ a p. true) (account ∷ []) ctx login store)
login-CanRefresh_example =
    login-CanRefresh settings platform 20 (λ a p. true) (account ∷ []) ctx login store
      store-WellFormed

login-granted_example :
    is_ok (login_user_service settings platform 20 (λ a p. true) (account ∷ []) ctx login store)
    ≡ true
unfolding parse_app_scope find modify resolve_trusted_device authenticate accept stamp_last_used
    verify_device_secret hash_device_secret pepper_of is_live
login-granted_example =
    login-granted settings login driver_app refl platform 20 (λ a p. true) (account ∷ []) ctx store
      account (some (stamp_row 20 device), record store { devices = stamp_row 20 device ∷ [] }) refl
      refl refl
