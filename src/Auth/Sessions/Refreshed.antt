-- ===== src/Auth/Sessions/Refreshed.antt =====
-- The sessions that a sign-in on a device hands out.
use next_mark_backend_v.Prelude.{
  arith, ℕ, zero, suc, ◌+◌, ◌≤◌, ◌≡◌, refl, sym, subst, inl, inr, String, Bool, true, not, Option,
  none, some, List, [], ◌∷◌, take, length, length-take, ◌==◌, ==_iff, Bool-cases,
}
use next_mark_backend_v.Prelude.Sorting.{All, All-map, sort-All}
use next_mark_backend_v.Prelude.Rows.{find, any, select, OnSome, find_sound}
use next_mark_backend_v.Result.{Result, ok, err, OnOk, OnOk->>=, OnOk->>=_of}
use next_mark_backend_v.Workspaces.{parse_app_scope}
use next_mark_backend_v.Auth.TrustedDevice.{
  TrustedDevice, TrustedDeviceUser, Store, has_id, links_actively, is_live,
  is_user_assigned_to_device, resolve_refresh_trusted_device,
}
use next_mark_backend_v.Auth.Tokens.{
  Account, Claims, build_user_tokens, build_auth_claims, identity_of,
}
use next_mark_backend_v.Auth.Sessions.{
  Settings, Session, Built, is_account, active_on, put_account, put_found, assigned_accounts,
  by_username, ordered_accounts, session_of, add_session, build_sessions,
  build_trusted_device_sessions,
}

module _ (store : Store) (device : TrustedDevice) where
  -- Whether a user is assigned to the device.
  abbrev pub IsAssigned : Account → Type 0
  IsAssigned a = is_user_assigned_to_device (some a.id) (some device.id) store ≡ true

  -- Whether the token of a session can be refreshed.
  abbrev pub Refreshes : Session → Type 0
  Refreshes s = resolve_refresh_trusted_device (identity_of s.claims) store ≡ ok (some device)

  abbrev OfUser : List TrustedDeviceUser → TrustedDeviceUser → Type 0
  OfUser rows row = any (links_actively device.id row.user_id) rows ≡ true

  select-OfUser :
      (rows : List TrustedDeviceUser) → All (OfUser rows) (select (active_on device.id) rows)
  unfolding select any
  select-OfUser [] = tt
  select-OfUser (row ∷ rows) =
      let rest : All (OfUser (row ∷ rows)) (select (active_on device.id) rows) =
        All-map (select (active_on device.id) rows) (λ r h. ground arith) (select-OfUser rows) in
      elim (Bool-cases (active_on device.id row)) [
        | inl active ↦ rw active (ground arith, rest)
        | inr other ↦ rw other rest
      ]

  put_account-All :
      (P : Account → Type 0) (a : Account) (accounts : List Account)
      → P a
      → All P accounts
      → All P (put_account a accounts)
  unfolding put_account
  put_account-All P a [] p h = (p, tt)
  put_account-All P a (x ∷ accounts) p h = elim (Bool-cases (x.id == a.id)) [
    | inl same ↦ rw same (p, h.1)
    | inr other ↦ rw other (h.0, put_account-All P a accounts p h.1)
  ]

  put_found-All :
      (o : Option Account) (known : List Account)
      → OnSome IsAssigned o
      → All IsAssigned known
      → All IsAssigned (put_found o known)
  put_found-All none known p h = h
  put_found-All (some a) known p h = put_account-All IsAssigned a known p h

  found-IsAssigned :
      (i : ℕ) (o : Option Account)
      → any (links_actively device.id i) store.assignments ≡ true
      → OnSome (λ a. is_account i a ≡ true) o
      → OnSome IsAssigned o
  unfolding is_user_assigned_to_device
  found-IsAssigned i none h e = tt
  found-IsAssigned i (some a) h e =
      subst (λ k. any (links_actively device.id k) store.assignments ≡ true)
        (sym ((==_iff a.id i).0 e)) h

  assigned_accounts-All :
      (accounts : List Account) (rows : List TrustedDeviceUser) (known : List Account)
      → All (OfUser store.assignments) rows
      → All IsAssigned known
      → All IsAssigned (assigned_accounts accounts rows known)
  unfolding assigned_accounts
  assigned_accounts-All accounts [] known rs h = h
  assigned_accounts-All accounts (row ∷ rows) known rs h =
      assigned_accounts-All accounts rows _ rs.1 (
        put_found-All (find (is_account row.user_id) accounts) known
          (found-IsAssigned row.user_id (find (is_account row.user_id) accounts) rs.0
            (find_sound (is_account row.user_id) accounts))
          h)

select-All {ℓ κ} :
    {A : Type ℓ} (P : A → Type κ) (p : A → Bool) (xs : List A) → All P xs → All P (select p xs)
unfolding select
select-All P p [] h = tt
select-All P p (x ∷ xs) h = elim (Bool-cases (p x)) [
  | inl here ↦ rw here (h.0, select-All P p xs h.1)
  | inr other ↦ rw other (select-All P p xs h.1)
]

take-All {ℓ κ} : {A : Type ℓ} (P : A → Type κ) (n : ℕ) (xs : List A) → All P xs → All P (take n xs)
take-All P zero xs h = tt
take-All P (suc n) [] h = tt
take-All P (suc n) (x ∷ xs) h = (h.0, take-All P n xs h.1)

module _ (settings : Settings) (store : Store) (device : TrustedDevice)
    (live : is_live device ≡ true)
    (stored : find (has_id device.id) store.devices ≡ some device) where
  ordered_accounts-All :
      (accounts : List Account) (initiating : Account)
      → IsAssigned store device initiating
      → All (IsAssigned store device) (ordered_accounts settings accounts store device initiating)
  unfolding ordered_accounts
  ordered_accounts-All accounts initiating h = (
    h,
    sort-All (by_username settings.lower) (IsAssigned store device) _ (
        select-All (IsAssigned store device) (λ a. not (a.id == initiating.id)) _
          (put_account-All store device (IsAssigned store device) initiating _ h (
            assigned_accounts-All store device accounts _ []
              (select-OfUser store device store.assignments) tt))),
  )

  build_user_tokens-Refreshes :
      (account : Account) (app_scope session_scope_id time_zone : Option String)
      → IsAssigned store device account
      → OnOk
          (λ r. Refreshes store device (session_of account r.0))
          (build_user_tokens settings.issuer account app_scope session_scope_id time_zone
            (some device))
  unfolding build_user_tokens build_auth_claims resolve_refresh_trusted_device
  build_user_tokens-Refreshes account app_scope session_scope_id time_zone h =
      OnOk->>= (λ r. Refreshes store device (session_of account r.0))
        (parse_app_scope settings.issuer.directory app_scope) _
        (λ scope _. rw (stored, live, h) refl)

  -- What the loop has built for a number of users.
  abbrev Counted : ℕ → Built → Type 0
  Counted n built =
      All (Refreshes store device) built.sessions × (length built.sessions + built.excluded ≡ n)

  add_session-Counted :
      (n i : ℕ) (account : Account) (call : Result (Claims × Account)) (built : Built)
      → OnOk (λ r. Refreshes store device (session_of account r.0)) call
      → Counted n built
      → OnOk (Counted (suc n)) (add_session i account call built)
  add_session-Counted n i account (err raised) built c h = elim (Bool-cases (account.id == i)) [
    | inl own ↦ rw own tt
    | inr other ↦ rw other (h.0, omega (arith, h.1))
  ]
  add_session-Counted n i account (ok r) built c h = ((c, h.0), omega (arith, h.1))

  build_sessions-Counted :
      (app_scope time_zone : Option String) (i : ℕ) (accounts : List Account)
      → All (IsAssigned store device) accounts
      → OnOk
          (Counted (length accounts))
          (build_sessions settings device app_scope time_zone i accounts)
  unfolding build_sessions
  build_sessions-Counted app_scope time_zone i [] h = (tt, refl)
  build_sessions-Counted app_scope time_zone i (account ∷ accounts) h =
      OnOk->>=_of (Counted (length accounts)) (Counted (suc (length accounts)))
        (build_sessions settings device app_scope time_zone i accounts) _
        (build_sessions-Counted app_scope time_zone i accounts h.1)
        (λ built counted.
          add_session-Counted (length accounts) i account _ built
            (build_user_tokens-Refreshes account app_scope none time_zone h.0) counted)

  -- When a user who is assigned to a live device signs in on it, each session that is handed out can
  -- be refreshed for this device on the tables as they are; there are at most as many sessions as the
  -- cap on users; and the sessions and the excluded users together are as many as the users that the
  -- call takes from the assignments, the one who signs in included.
  pub build-Refreshes :
      (accounts : List Account) (initiating : Account) (app_scope time_zone : Option String)
      → IsAssigned store device initiating
      → OnOk
          (λ built.
            All (Refreshes store device) built.sessions
            × (length built.sessions ≤ settings.max_users)
            × (length built.sessions + built.excluded
                ≡ length (ordered_accounts settings accounts store device initiating)))
          (build_trusted_device_sessions settings accounts store device initiating app_scope
            time_zone)
  unfolding build_trusted_device_sessions
  build-Refreshes accounts initiating app_scope time_zone h =
      let ordered = ordered_accounts settings accounts store device initiating in
      let kept = take settings.max_users ordered in
      let size = length-take settings.max_users ordered in
      OnOk->>=_of (Counted (length kept))
        (λ built.
          All (Refreshes store device) built.sessions
          × (length built.sessions ≤ settings.max_users)
          × (length built.sessions + built.excluded ≡ length ordered))
        (build_sessions settings device app_scope time_zone initiating.id kept) _
        (build_sessions-Counted app_scope time_zone initiating.id kept (
          take-All (IsAssigned store device) settings.max_users ordered
            (ordered_accounts-All accounts initiating h)))
        (λ built counted.
          (counted.0, omega (arith, counted.1, size), omega (arith, counted.1, size)))
