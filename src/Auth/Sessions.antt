-- ===== src/Auth/Sessions.antt =====
-- Delivery_app_BK/services/commands/auth: who gets a session (build_trusted_device_sessions.py,
-- login_user.py, resync_trusted_device_sessions.py and refresh_user_token.py).
pub mod Refreshed
pub mod SignedIn
pub mod Granted
use Prim.Native.String.{compare}
use text.Mathlib.Text.{is_le}
use next_mark_backend_v.Prelude.{
  ℕ, ◌+◌, ◌-◌, String, Bool, true, false, not, ◌&&◌, ◌||◌, Option, none, some, List, [], ◌∷◌, map,
  take, length, ◌==◌, str_eq, if◌then◌else◌,
}
use next_mark_backend_v.Prelude.Sorting.{sort}
use next_mark_backend_v.Prelude.Rows.{find, select}
use next_mark_backend_v.Result.{
  Result, Error, ok, err, validation_failed, not_found, ◌>>=◌, ◌>>◌, guard,
}
use next_mark_backend_v.Auth.TrustedDevice.{
  TrustedDevice, TrustedDeviceUser, Store, Caller, Platform, Identity, or_empty, is_empty,
  sessions_resynced, resolve_trusted_device, is_user_assigned_to_device,
  resolve_refresh_trusted_device,
}
use next_mark_backend_v.Auth.Common.{record_trusted_device_event}
use next_mark_backend_v.Auth.Tokens.{Account, Claims, Issuer, build_user_tokens}

-- The settings of a sign-in: Python's `str.lower`, the cap on users and the issuer of tokens.
pub record Settings : Type 0 where
  pub issuer : Issuer
  pub lower : String → String
  pub max_users : ℕ

abbrev pub is_account : ℕ → Account → Bool
is_account i account = account.id == i

abbrev pub active_on : ℕ → TrustedDeviceUser → Bool
active_on device_id row = row.trusted_device_id == device_id && row.is_active

-- `users_by_id[user.id] = user`: a known id keeps its place.
unfoldable pub put_account : Account → List Account → List Account
put_account account [] = account ∷ []
put_account account (a ∷ accounts) =
    let rest = a ∷ put_account account accounts in
    if a.id == account.id then account ∷ accounts else rest

abbrev pub put_found : Option Account → List Account → List Account
put_found none accounts = accounts
put_found (some account) accounts = put_account account accounts

-- The users of the assignments, each once; an assignment may have lost its user.
unfoldable pub assigned_accounts :
    List Account → List TrustedDeviceUser → List Account → List Account
unfolding put_account find
assigned_accounts accounts [] known = known
assigned_accounts accounts (row ∷ rows) known =
    assigned_accounts accounts rows (put_found (find (is_account row.user_id) accounts) known)

abbrev pub by_username : (String → String) → Account → Account → Bool
by_username lower a b = is_le (compare (lower (or_empty a.username)) (lower (or_empty b.username)))

-- The initiating user first, the others by name.
unfoldable pub ordered_accounts :
    Settings → List Account → Store → TrustedDevice → Account → List Account
unfolding assigned_accounts put_account select sort
ordered_accounts settings accounts store device initiating =
    let known =
      put_account initiating
        (assigned_accounts accounts (select (active_on device.id) store.assignments) []) in
    initiating ∷ sort (by_username settings.lower) (select (λ a. not (a.id == initiating.id)) known)

pub record Session : Type 0 where
  pub user_client_id : String
  pub claims : Claims

-- The sessions, the rows that were written and how many users were excluded.
pub record Built : Type 0 where
  pub sessions : List Session
  pub accounts : List Account
  pub excluded : ℕ

abbrev pub session_of : Account → Claims → Session
session_of account claims = record { user_client_id = account.client_id; claims = claims }

-- A domain error of one user excludes the user, but for the initiating one.
abbrev pub add_session : ℕ → Account → Result (Claims × Account) → Built → Result Built
add_session initiating_id account (err raised) built =
    if account.id == initiating_id
    then err raised
    else ok (record built { excluded = built.excluded + 1 })
add_session initiating_id account (ok (claims, written)) built = ok (record built {
  sessions = session_of account claims ∷ built.sessions;
  accounts = written ∷ built.accounts;
})

-- The loop; a later user's error is that of the whole call only if the user is the initiating one,
-- who comes first.
unfoldable pub build_sessions :
    Settings → TrustedDevice → Option String → Option String → ℕ → List Account → Result Built
unfolding build_user_tokens
build_sessions settings device app_scope time_zone initiating_id [] =
    ok (record { sessions = []; accounts = []; excluded = 0 })
build_sessions settings device app_scope time_zone initiating_id (account ∷ accounts) = do
  rest ← build_sessions settings device app_scope time_zone initiating_id accounts
  add_session initiating_id account
      (build_user_tokens settings.issuer account app_scope none time_zone (some device)) rest

-- The sessions, and the count of the warning `trusted_device_users_excluded`, which 0 leaves out.
unfoldable pub build_trusted_device_sessions :
    Settings
    → List Account
    → Store
    → TrustedDevice
    → Account
    → Option String
    → Option String
    → Result Built
unfolding ordered_accounts build_sessions
build_trusted_device_sessions settings accounts store device initiating app_scope time_zone =
    let ordered = ordered_accounts settings accounts store device initiating in
    do
      built ←
          build_sessions settings device app_scope time_zone initiating.id
            (take settings.max_users ordered)
      ok (record built { excluded = built.excluded + (length ordered - settings.max_users) })

pub data SignIn : Type 0 where
  one_user : Claims → Account → SignIn
  device_users : Built → SignIn

abbrev pub or_raise {ℓ} : {A : Type ℓ} → Error → Option A → Result A
or_raise raised none = err raised
or_raise raised (some a) = ok a

-- The request after parsing.
pub record LoginRequest : Type 0 where
  pub email : String
  pub password : String
  pub app_scope : Option String
  pub time_zone : Option String

unfoldable pub sign_in_one : Settings → Account → LoginRequest → Result SignIn
unfolding build_user_tokens
sign_in_one settings account request = do
  (claims, written) ←
      build_user_tokens settings.issuer account request.app_scope none request.time_zone none
  ok (one_user claims written)

abbrev pub sign_in_on :
    Settings → List Account → Account → LoginRequest → Option TrustedDevice → Store → Result SignIn
sign_in_on settings accounts account request none store = sign_in_one settings account request
sign_in_on settings accounts account request (some device) store =
    let users = do
      built ←
          build_trusted_device_sessions settings accounts store device account request.app_scope
            request.time_zone
      ok (device_users built)
    in if is_user_assigned_to_device (some account.id) (some device.id) store
      then users
      else sign_in_one settings account request

-- `check_password` is the comparison with the stored hash.
unfoldable pub login_user_service :
    Settings
    → Platform
    → ℕ
    → (Account → String → Bool)
    → List Account
    → Caller
    → LoginRequest
    → Store
    → Result (SignIn × Store)
unfolding find resolve_trusted_device sign_in_one build_trusted_device_sessions
    is_user_assigned_to_device
login_user_service settings platform now check_password accounts ctx request store = do
  account ← or_raise validation_failed (find (λ a. str_eq a.email request.email) accounts)
  guard (check_password account request.password) validation_failed
  found ← resolve_trusted_device platform now ctx store
  signed ← sign_in_on settings accounts account request found.0 found.1
  ok (signed, found.1)

unfoldable pub resync_trusted_device_sessions :
    Settings
    → Platform
    → ℕ
    → List Account
    → Caller
    → Option String
    → Option String
    → Store
    → Result (Built × Store)
unfolding find resolve_trusted_device build_trusted_device_sessions is_user_assigned_to_device
    record_trusted_device_event
resync_trusted_device_sessions settings platform now accounts ctx app_scope time_zone store = do
  found ← resolve_trusted_device platform now ctx store
  device ← or_raise validation_failed found.0
  user_id ← or_raise validation_failed ctx.user_id
  guard (not (is_empty (or_empty app_scope))) validation_failed
  account ← or_raise validation_failed (find (is_account user_id) accounts)
  guard (is_user_assigned_to_device (some account.id) (some device.id) found.1) validation_failed
  built ← build_trusted_device_sessions settings accounts found.1 device account app_scope time_zone
  ok (built, record_trusted_device_event ctx sessions_resynced device (some account.id) found.1)

-- The claims of the new access token; the texts are claims of the refresh token.
unfoldable pub refresh_user_token :
    Settings
    → List Account
    → Identity
    → Option String
    → Option String
    → Option String
    → Store
    → Result (Claims × Account)
unfolding find resolve_refresh_trusted_device build_user_tokens
refresh_user_token settings accounts identity app_scope session_scope_id time_zone store = do
  user_id ← or_raise validation_failed identity.user_id
  guard (not (is_empty (or_empty app_scope) || is_empty (or_empty session_scope_id)))
      validation_failed
  account ← or_raise not_found (find (is_account user_id) accounts)
  device ← resolve_refresh_trusted_device identity store
  build_user_tokens settings.issuer account app_scope session_scope_id time_zone device
