-- ===== src/Auth/Sessions/Granted.antt =====
-- When a login succeeds.
use next_mark_backend_v.Prelude.{
  ℕ, ◌≡◌, refl, inl, inr, String, Bool, true, Option, none, some, List, [], ◌∷◌, str_eq, Bool-cases,
  take,
}
use next_mark_backend_v.Prelude.Rows.{find}
use next_mark_backend_v.Result.{Result, ok, err, ◌>>=◌}
use next_mark_backend_v.Workspaces.{AppScope, parse_app_scope}
use next_mark_backend_v.Auth.TrustedDevice.{
  TrustedDevice, Store, Caller, Platform, resolve_trusted_device, is_user_assigned_to_device,
}
use next_mark_backend_v.Auth.Tokens.{Account, Claims, build_user_tokens}
use next_mark_backend_v.Auth.Sessions.{
  Settings, Built, LoginRequest, add_session, build_sessions, ordered_accounts, sign_in_one,
  sign_in_on, build_trusted_device_sessions, login_user_service,
}
use next_mark_backend_v.Auth.Sessions.SignedIn.{is_ok}

is_ok->>= {ℓ κ} :
    {A : Type ℓ} {B : Type κ} (call : Result A) (next : A → Result B)
    → is_ok call ≡ true
    → ((a : A) → is_ok (next a) ≡ true)
    → is_ok (call >>= next) ≡ true
is_ok->>= (err raised) next c h = absurd (cc c)
is_ok->>= (ok value) next c h = h value

module _ (settings : Settings) (app_scope : Option String) (scope : AppScope)
    (parsed : parse_app_scope settings.issuer.directory app_scope ≡ ok scope) where
  build_user_tokens-is_ok :
      (account : Account) (session_scope_id time_zone : Option String)
      (device : Option TrustedDevice)
      → is_ok
          (build_user_tokens settings.issuer account app_scope session_scope_id time_zone device)
        ≡ true
  unfolding build_user_tokens
  build_user_tokens-is_ok account session_scope_id time_zone device = rw parsed refl

  add_session-is_ok :
      (i : ℕ) (account : Account) (call : Result (Claims × Account)) (built : Built)
      → is_ok call ≡ true
      → is_ok (add_session i account call built) ≡ true
  add_session-is_ok i account (err raised) built h = absurd (cc h)
  add_session-is_ok i account (ok r) built h = refl

  build_sessions-is_ok :
      (device : TrustedDevice) (time_zone : Option String) (i : ℕ) (accounts : List Account)
      → is_ok (build_sessions settings device app_scope time_zone i accounts) ≡ true
  unfolding build_sessions
  build_sessions-is_ok device time_zone i [] = refl
  build_sessions-is_ok device time_zone i (account ∷ accounts) =
      is_ok->>= (build_sessions settings device app_scope time_zone i accounts) _
        (build_sessions-is_ok device time_zone i accounts)
        (λ built.
          add_session-is_ok i account _ built
            (build_user_tokens-is_ok account none time_zone (some device)))

module _ (settings : Settings) (request : LoginRequest) (scope : AppScope)
    (parsed : parse_app_scope settings.issuer.directory request.app_scope ≡ ok scope) where
  sign_in_one-is_ok : (account : Account) → is_ok (sign_in_one settings account request) ≡ true
  unfolding sign_in_one
  sign_in_one-is_ok account =
      is_ok->>=
        (build_user_tokens settings.issuer account request.app_scope none request.time_zone none) _
        (build_user_tokens-is_ok settings request.app_scope scope parsed account none
          request.time_zone none)
        (λ r. refl)

  build-is_ok :
      (accounts : List Account) (account : Account) (device : TrustedDevice) (store : Store)
      → is_ok (
          build_trusted_device_sessions settings accounts store device account request.app_scope
            request.time_zone)
        ≡ true
  unfolding build_trusted_device_sessions
  build-is_ok accounts account device store =
      let ordered = ordered_accounts settings accounts store device account in
      is_ok->>=
        (build_sessions settings device request.app_scope request.time_zone account.id
          (take settings.max_users ordered))
        _
        (build_sessions-is_ok settings request.app_scope scope parsed device request.time_zone
          account.id (take settings.max_users ordered))
        (λ built. refl)

  sign_in_on-is_ok :
      (accounts : List Account) (account : Account) (found : Option TrustedDevice) (store : Store)
      → is_ok (sign_in_on settings accounts account request found store) ≡ true
  sign_in_on-is_ok accounts account none store = sign_in_one-is_ok account
  sign_in_on-is_ok accounts account (some device) store =
      elim (Bool-cases (is_user_assigned_to_device (some account.id) (some device.id) store)) [
        | inl assigned ↦ rw assigned (
            is_ok->>=
              (build_trusted_device_sessions settings accounts store device account
                request.app_scope request.time_zone)
              _ (build-is_ok accounts account device store) (λ built. refl))
        | inr other ↦ rw other (sign_in_one-is_ok account)
      ]

  -- A login succeeds when the e-mail is that of an account, the password is its password, the scope
  -- is one of the apps, and the device that is presented, if any, authenticates; it succeeds also
  -- when the account is not assigned to the device.
  pub login-granted :
      (platform : Platform) (now : ℕ) (check_password : Account → String → Bool)
      (accounts : List Account) (ctx : Caller) (store : Store) (account : Account)
      (found : Option TrustedDevice × Store)
      → find (λ a. str_eq a.email request.email) accounts ≡ some account
      → check_password account request.password ≡ true
      → resolve_trusted_device platform now ctx store ≡ ok found
      → is_ok (login_user_service settings platform now check_password accounts ctx request store)
        ≡ true
  unfolding login_user_service
  login-granted platform now check_password accounts ctx store account found known password device =
      rw (known, password, device)
        (is_ok->>= (sign_in_on settings accounts account request found.0 found.1) _
          (sign_in_on-is_ok accounts account found.0 found.1) (λ signed. refl))
