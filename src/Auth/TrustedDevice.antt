-- ===== src/Auth/TrustedDevice.antt =====
-- Delivery_app_BK/services/domain/auth/trusted_device.py, on the rows of
-- Delivery_app_BK/models/tables/trusted_device. Instants are UTC.
use next_mark_backend_v.Prelude.{
  ℕ, String, Bool, false, ◌&&◌, ◌||◌, not, Option, none, some, List, ◌==◌, str_eq, if◌then◌else◌,
}
use next_mark_backend_v.Prelude.Rows.{find, any, modify, is_some}
use next_mark_backend_v.Result.{Result, ok, err, validation_failed, ◌>>=◌, ◌>>◌, guard}

pub record TrustedDevice : Type 0 where
  pub id : ℕ
  pub client_id : String
  pub team_id : Option ℕ
  pub name : String
  pub device_secret_hash : String
  pub is_active : Bool
  pub last_used_at : Option ℕ
  pub updated_at : ℕ
  pub registered_by_user_id : Option ℕ
  pub revoked_at : Option ℕ
  pub revoked_by_user_id : Option ℕ

pub record TrustedDeviceUser : Type 0 where
  pub trusted_device_id : ℕ
  pub user_id : ℕ
  pub is_active : Bool
  pub created_at : ℕ
  pub created_by_user_id : Option ℕ
  pub revoked_at : Option ℕ
  pub revoked_by_user_id : Option ℕ

pub data EventName : Type 0 where
  device_registered device_updated device_revoked device_secret_rotated : EventName
  user_assigned user_removed login_succeeded login_failed : EventName
  sessions_resynced refresh_rejected : EventName

-- A row of the audit; its result is always `success`.
pub record TrustedDeviceEvent : Type 0 where
  pub event_name : EventName
  pub trusted_device_id : ℕ
  pub initiating_user_id : Option ℕ
  pub target_user_id : Option ℕ
  pub team_id : Option ℕ

-- The three tables.
pub record Store : Type 0 where
  pub devices : List TrustedDevice
  pub assignments : List TrustedDeviceUser
  pub events : List TrustedDeviceEvent

-- What the request says of its caller; the two texts are headers.
pub record Caller : Type 0 where
  pub team_id : Option ℕ
  pub user_id : Option ℕ
  pub trusted_device_client_id : Option String
  pub trusted_device_secret : Option String

-- Python's `str.strip`, the hex HMAC-SHA256 of a text under a key, and the configuration.
pub record Platform : Type 0 where
  pub strip : String → String
  pub hmac : String → String → String
  pub pepper : Option String

-- `text or ""`
abbrev pub or_empty : Option String → String
or_empty none = ""
or_empty (some s) = s

abbrev pub is_empty : String → Bool
is_empty s = str_eq s ""

unfoldable pub pepper_of : Platform → Result String
pepper_of platform =
    let pepper = or_empty platform.pepper in
    if is_empty pepper then err validation_failed else ok pepper

unfoldable pub hash_device_secret : Platform → String → Result String
unfolding pepper_of
hash_device_secret platform raw_secret = do
  pepper ← pepper_of platform
  ok (platform.hmac pepper raw_secret)

unfoldable pub verify_device_secret : Platform → String → String → Result Bool
unfolding hash_device_secret
verify_device_secret platform raw_secret stored_hash =
    let check = do
      computed ← hash_device_secret platform raw_secret
      ok (str_eq computed stored_hash)
    in if is_empty raw_secret || is_empty stored_hash then ok false else check

-- `device.is_active and device.revoked_at is None`
unfoldable pub is_live : TrustedDevice → Bool
is_live device = device.is_active && not (is_some device.revoked_at)

abbrev pub live_device : Option TrustedDevice → Result TrustedDevice
live_device none = err validation_failed
live_device (some device) = if is_live device then ok device else err validation_failed

abbrev pub has_client_id : String → TrustedDevice → Bool
has_client_id client_id device = str_eq device.client_id client_id

abbrev pub has_id : ℕ → TrustedDevice → Bool
has_id i device = device.id == i

unfoldable pub authenticate : Platform → String → String → List TrustedDevice → Result TrustedDevice
unfolding verify_device_secret is_live
authenticate platform client_id secret devices = do
  device ← live_device (find (has_client_id client_id) devices)
  verified ← verify_device_secret platform secret device.device_secret_hash
  guard verified validation_failed
  ok device

-- `updated_at` is set by every write of the row (`onupdate`).
abbrev pub stamp_row : ℕ → TrustedDevice → TrustedDevice
stamp_row now row = record row { last_used_at = some now; updated_at = now }

-- The write of `last_used_at` to the row that was found.
unfoldable pub stamp_last_used : ℕ → TrustedDevice → Store → Store
stamp_last_used now device store = record store {
  devices = modify (has_id device.id) (stamp_row now) store.devices;
}

unfoldable pub accept :
    Platform → ℕ → String → String → Store → Result (Option TrustedDevice × Store)
unfolding authenticate stamp_last_used
accept platform now client_id secret store = do
  device ← authenticate platform client_id secret store.devices
  ok (some (stamp_row now device), stamp_last_used now device store)

-- The device that the request presents, if it presents any, and the tables after.
unfoldable pub resolve_trusted_device :
    Platform → ℕ → Caller → Store → Result (Option TrustedDevice × Store)
unfolding accept
resolve_trusted_device platform now ctx store =
    let client_id = platform.strip (or_empty ctx.trusted_device_client_id) in
    let secret = or_empty ctx.trusted_device_secret in
    if is_empty client_id && is_empty secret
    then ok (none, store)
    else if is_empty client_id || is_empty secret
    then err validation_failed
    else accept platform now client_id secret store

abbrev pub links : ℕ → ℕ → TrustedDeviceUser → Bool
links trusted_device_id user_id row =
    row.trusted_device_id == trusted_device_id && row.user_id == user_id

abbrev pub links_actively : ℕ → ℕ → TrustedDeviceUser → Bool
links_actively trusted_device_id user_id row = links trusted_device_id user_id row && row.is_active

unfoldable pub is_user_assigned_to_device : Option ℕ → Option ℕ → Store → Bool
is_user_assigned_to_device none trusted_device_id store = false
is_user_assigned_to_device (some user_id) none store = false
is_user_assigned_to_device (some user_id) (some trusted_device_id) store =
    any (links_actively trusted_device_id user_id) store.assignments

-- The claims of a token that the check reads.
pub data AuthenticationMode : Type 0 where
  single_user trusted_device : AuthenticationMode

pub record Identity : Type 0 where
  pub user_id : Option ℕ
  pub authentication_mode : AuthenticationMode
  pub trusted_device_id : Option ℕ

abbrev pub device_by_id : Option ℕ → Store → Option TrustedDevice
device_by_id none store = none
device_by_id (some i) store = find (has_id i) store.devices

unfoldable pub resolve_refresh_trusted_device : Identity → Store → Result (Option TrustedDevice)
unfolding is_live is_user_assigned_to_device
resolve_refresh_trusted_device identity store =
    let check = do
      device ← live_device (device_by_id identity.trusted_device_id store)
      guard (is_user_assigned_to_device identity.user_id (some device.id) store) validation_failed
      ok (some device)
    in elim identity.authentication_mode [ single_user ↦ ok none | trusted_device ↦ check ]
