-- ===== src/Auth/Sessions/SignedIn.antt =====
-- The tokens that a login hands out.
use next_mark_backend_v.Prelude.{
  arith, ℕ, ◌≡◌, refl, subst, inl, inr, String, Bool, true, false, ◌&&◌, ◌||◌, Option, none, some,
  List, [], ◌∷◌, ==_iff, map, str_eq, Bool-cases,
}
use next_mark_backend_v.Prelude.Sorting.{All}
use next_mark_backend_v.Prelude.Rows.{find, any, modify, OnSome}
use next_mark_backend_v.Prelude.Distinct.{Distinct}
use next_mark_backend_v.Result.{
  Result, ok, err, validation_failed, OnOk, OnOk->>=, OnOk->>=_of, OnOk-guard, OnOk-if,
}
use next_mark_backend_v.Workspaces.{parse_app_scope}
use next_mark_backend_v.Auth.TrustedDevice.{
  TrustedDevice, Store, Caller, Platform, has_id, has_client_id, is_live, live_device, stamp_row,
  stamp_last_used, authenticate, verify_device_secret, accept, resolve_trusted_device, is_empty,
  or_empty, is_user_assigned_to_device, resolve_refresh_trusted_device,
}
use next_mark_backend_v.Auth.Tokens.{
  Account, Claims, build_user_tokens, build_auth_claims, identity_of,
}
use next_mark_backend_v.Auth.Sessions.{
  Settings, Session, SignIn, one_user, device_users, LoginRequest, sign_in_one, sign_in_on,
  build_trusted_device_sessions, login_user_service, or_raise,
}
use next_mark_backend_v.Auth.Sessions.Refreshed.{Refreshes, build-Refreshes}
use next_mark_backend_v.Auth.Trace.WellFormed.{same_device, WellFormed}

-- A device that is found in the rows under its id, once it is stamped.
abbrev Stamped : ℕ → List TrustedDevice → TrustedDevice → Type 0
Stamped now rows d =
    (any (has_id d.id) rows ≡ true)
    × (find (has_id d.id) (modify (has_id d.id) (stamp_row now) rows) ≡ some (stamp_row now d))

later-Stamped :
    (now : ℕ) (x : TrustedDevice) (rows : List TrustedDevice) (o : Option TrustedDevice)
    → any (same_device x) rows ≡ false
    → OnSome (Stamped now rows) o
    → OnSome (Stamped now (x ∷ rows)) o
unfolding any find modify
later-Stamped now x rows none fresh h = tt
later-Stamped now x rows (some d) fresh h =
    let apart : has_id d.id x ≡ false = elim (Bool-cases (has_id d.id x)) [
      | inl same ↦
          absurd
            (cc (subst (λ k. any (has_id k) rows ≡ false) ((==_iff x.id d.id).0 same) fresh, h.0))
      | inr differs ↦ differs
    ] in
    (ground (arith, h.0), rw (apart, apart) h.1)

find-Stamped :
    (now : ℕ) (p : TrustedDevice → Bool) (rows : List TrustedDevice)
    → Distinct same_device rows
    → OnSome (Stamped now rows) (find p rows)
unfolding any find modify
find-Stamped now p [] h = tt
find-Stamped now p (x ∷ rows) h = elim (Bool-cases (p x)) [
  | inl here ↦
      let own : has_id x.id x ≡ true = ground arith in rw here (rw own refl, rw (own, own) refl)
  | inr other ↦ rw other (later-Stamped now x rows _ h.0 (find-Stamped now p rows h.1))
]

-- What a call that presents a device finds: a live device, as the tables then hold it.
abbrev Presented : Option TrustedDevice × Store → Type 0
Presented found =
    OnSome (λ d. (is_live d ≡ true) × (find (has_id d.id) found.1.devices ≡ some d)) found.0

live_device-Stamped :
    (now : ℕ) (rows : List TrustedDevice) (o : Option TrustedDevice)
    → OnSome (Stamped now rows) o
    → OnOk (λ d. (is_live d ≡ true) × Stamped now rows d) (live_device o)
live_device-Stamped now rows none h = tt
live_device-Stamped now rows (some d) h = elim (Bool-cases (is_live d)) [
  | inl live ↦ rw live (live, h)
  | inr dead ↦ rw dead tt
]

authenticate-Stamped :
    (platform : Platform) (now : ℕ) (client_id secret : String) (rows : List TrustedDevice)
    → Distinct same_device rows
    → OnOk
        (λ d. (is_live d ≡ true) × Stamped now rows d)
        (authenticate platform client_id secret rows)
unfolding authenticate
authenticate-Stamped platform now client_id secret rows h =
    let P : TrustedDevice → Type 0 = λ d. (is_live d ≡ true) × Stamped now rows d in
    OnOk->>=_of P P (live_device (find (has_client_id client_id) rows)) _
      (live_device-Stamped now rows _ (find-Stamped now (has_client_id client_id) rows h))
      (λ d found.
        OnOk->>= P (verify_device_secret platform secret d.device_secret_hash) _
          (λ verified _. OnOk-guard P verified validation_failed _ (λ _. found)))

resolve-Presented :
    (platform : Platform) (now : ℕ) (ctx : Caller) (store : Store)
    → WellFormed store
    → OnOk Presented (resolve_trusted_device platform now ctx store)
unfolding resolve_trusted_device accept stamp_last_used is_live
resolve-Presented platform now ctx store h =
    let client_id = platform.strip (or_empty ctx.trusted_device_client_id) in
    let secret = or_empty ctx.trusted_device_secret in
    OnOk-if Presented (is_empty client_id && is_empty secret) _ _ tt (
      OnOk-if Presented (is_empty client_id || is_empty secret) _ _ tt (
        OnOk->>=_of (λ d. (is_live d ≡ true) × Stamped now store.devices d) Presented
          (authenticate platform client_id secret store.devices) _
          (authenticate-Stamped platform now client_id secret store.devices h.0)
          (λ d found. (found.0, found.1.1))))

abbrev pub is_ok {ℓ} : {A : Type ℓ} → Result A → Bool
is_ok (err _) = false
is_ok (ok _) = true

abbrev pub session_claims : Session → Claims
session_claims s = s.claims

-- The claims of all tokens of a sign-in.
abbrev pub claims_of : SignIn → List Claims
claims_of (one_user claims account) = claims ∷ []
claims_of (device_users built) = map session_claims built.sessions

abbrev pub CanRefresh : Store → Claims → Type 0
CanRefresh store claims = is_ok (resolve_refresh_trusted_device (identity_of claims) store) ≡ true

map-CanRefresh :
    (store : Store) (device : TrustedDevice) (sessions : List Session)
    → All (Refreshes store device) sessions
    → All (CanRefresh store) (map session_claims sessions)
map-CanRefresh store device [] h = tt
map-CanRefresh store device (s ∷ sessions) h =
    (rw h.0 refl, map-CanRefresh store device sessions h.1)

sign_in_one-CanRefresh :
    (settings : Settings) (account : Account) (request : LoginRequest) (store : Store)
    → OnOk
        (λ signed. All (CanRefresh store) (claims_of signed))
        (sign_in_one settings account request)
unfolding sign_in_one build_user_tokens build_auth_claims resolve_refresh_trusted_device
sign_in_one-CanRefresh settings account request store =
    OnOk->>=_of (λ r. CanRefresh store r.0) (λ signed. All (CanRefresh store) (claims_of signed))
      (build_user_tokens settings.issuer account request.app_scope none request.time_zone none) _
      (OnOk->>= (λ r. CanRefresh store r.0)
        (parse_app_scope settings.issuer.directory request.app_scope) _ (λ scope _. refl))
      (λ r h. (h, tt))

sign_in_on-CanRefresh :
    (settings : Settings) (accounts : List Account) (account : Account) (request : LoginRequest)
    (found : Option TrustedDevice) (store : Store)
    → Presented (found, store)
    → OnOk
        (λ signed. All (CanRefresh store) (claims_of signed))
        (sign_in_on settings accounts account request found store)
sign_in_on-CanRefresh settings accounts account request none store h =
    sign_in_one-CanRefresh settings account request store
sign_in_on-CanRefresh settings accounts account request (some device) store h =
    let P : SignIn → Type 0 = λ signed. All (CanRefresh store) (claims_of signed) in
    elim (Bool-cases (is_user_assigned_to_device (some account.id) (some device.id) store)) [
      | inl assigned ↦ rw assigned (
          OnOk->>=_of _ P
            (build_trusted_device_sessions settings accounts store device account request.app_scope
              request.time_zone)
            _
            (build-Refreshes settings store device h.0 h.1 accounts account request.app_scope
              request.time_zone assigned)
            (λ built facts. map-CanRefresh store device built.sessions facts.0))
      | inr other ↦ rw other (sign_in_one-CanRefresh settings account request store)
    ]

-- Every token that a login hands out, for one user or for the users of a device, passes the check of
-- a refresh on the tables as the login leaves them.
pub login-CanRefresh :
    (settings : Settings) (platform : Platform) (now : ℕ) (check_password : Account → String → Bool)
    (accounts : List Account) (ctx : Caller) (request : LoginRequest) (store : Store)
    → WellFormed store
    → OnOk
        (λ r. All (CanRefresh r.1) (claims_of r.0))
        (login_user_service settings platform now check_password accounts ctx request store)
unfolding login_user_service
login-CanRefresh settings platform now check_password accounts ctx request store h =
    let P : SignIn × Store → Type 0 = λ r. All (CanRefresh r.1) (claims_of r.0) in
    OnOk->>= P (or_raise validation_failed (find (λ a. str_eq a.email request.email) accounts)) _
      (λ account _. OnOk-guard P (check_password account request.password) validation_failed _ (λ _.
        OnOk->>=_of Presented P (resolve_trusted_device platform now ctx store) _
          (resolve-Presented platform now ctx store h)
          (λ found presented.
            OnOk->>=_of (λ signed. All (CanRefresh found.1) (claims_of signed)) P
              (sign_in_on settings accounts account request found.0 found.1) _
              (sign_in_on-CanRefresh settings accounts account request found.0 found.1 presented)
              (λ signed facts. facts))))
