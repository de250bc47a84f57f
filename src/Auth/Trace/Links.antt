-- ===== src/Auth/Trace/Links.antt =====
-- What the commands keep that write to an assignment or add a device.
use next_mark_backend_v.Prelude.{
  arith, ℕ, ◌≡◌, refl, inl, inr, String, Bool, true, false, not, none, List, [], ◌∷◌, Bool-cases,
  Option-cases,
}
use next_mark_backend_v.Prelude.Rows.{any, modify, add, is_some, find, find-any, find-none}
use next_mark_backend_v.Result.{
  OnOk, OnOk->>=, OnOk->>=_of, OnOk-guard, validation_failed, not_found, integrity_error,
}
use next_mark_backend_v.Auth.TrustedDevice.{
  TrustedDevice, TrustedDeviceUser, Store, Caller, Platform, has_id, links, links_actively,
  hash_device_secret,
}
use next_mark_backend_v.Auth.Common.{
  User, load_team_device, load_team_user_by_client_id, record_trusted_device_event,
}
use next_mark_backend_v.Auth.Assignments.{
  new_device, new_assignment, reactivate, deactivate, assigned_rows, assign_trusted_device_user,
  remove_trusted_device_user, assign_all, register_trusted_device,
}
use next_mark_backend_v.Auth.Trace.Writes.{Holds}

-- What a write does to an assignment: its pair stays, and it is active or revoked.
abbrev pub Toggled : TrustedDeviceUser → TrustedDeviceUser → Type 0
Toggled before after =
    (after.trusted_device_id ≡ before.trusted_device_id)
    × (after.user_id ≡ before.user_id)
    × (after.is_active ≡ not (is_some after.revoked_at))

module _ (P : List TrustedDevice → Type 0) (Q : List TrustedDeviceUser → Type 0)
    (create : (row : TrustedDevice) (rows : List TrustedDevice)
      → any (has_id row.id) rows ≡ false
      → row.revoked_at ≡ none
      → P rows
      → P (add row rows))
    (toggle : (p : TrustedDeviceUser → Bool) (f : TrustedDeviceUser → TrustedDeviceUser)
        (rows : List TrustedDeviceUser)
      → ((row : TrustedDeviceUser) → Toggled row (f row))
      → Q rows
      → Q (modify p f rows))
    (link : (row : TrustedDeviceUser) (rows : List TrustedDeviceUser)
      → any (links row.trusted_device_id row.user_id) rows ≡ false
      → row.is_active ≡ true
      → row.revoked_at ≡ none
      → Q rows
      → Q (add row rows)) where
  assigned_rows-kept :
      (now : ℕ) (ctx : Caller) (d u : ℕ) (rows : List TrustedDeviceUser)
      → Q rows
      → OnOk Q (assigned_rows now ctx d u (find (links d u) rows) rows)
  unfolding assigned_rows
  assigned_rows-kept now ctx d u rows h = elim (Bool-cases (any (links d u) rows)) [
    | inl old ↦ elim (Option-cases (find (links d u) rows)) [
      | inl e ↦ absurd (cc (find-any (links d u) rows old, e))
      | inr (existing, e) ↦ rw e (
          OnOk-guard Q (not existing.is_active) validation_failed _
            (λ _. toggle (links d u) (reactivate now ctx) rows (λ row. (refl, refl, refl)) h))
    ]
    | inr fresh ↦
        rw (find-none (links d u) rows fresh)
          (link (new_assignment now ctx d u) rows fresh refl refl h)
  ]

  pub assign-Holds :
      (now : ℕ) (users : List User) (ctx : Caller) (c u : String) (store : Store)
      → Holds P Q store
      → OnOk (Holds P Q) (assign_trusted_device_user now users ctx c u store)
  unfolding assign_trusted_device_user record_trusted_device_event
  assign-Holds now users ctx c u store h =
      OnOk->>= (Holds P Q) (load_team_device ctx c store) _ (λ device _.
        OnOk->>= (Holds P Q) (load_team_user_by_client_id ctx u users) _ (λ user _.
          OnOk->>=_of Q (Holds P Q)
            (assigned_rows now ctx device.id user.id
              (find (links device.id user.id) store.assignments) store.assignments)
            _ (assigned_rows-kept now ctx device.id user.id store.assignments h.1)
            (λ rows q. (h.0, q))))

  pub remove-Holds :
      (now : ℕ) (users : List User) (ctx : Caller) (c u : String) (store : Store)
      → Holds P Q store
      → OnOk (Holds P Q) (remove_trusted_device_user now users ctx c u store)
  unfolding remove_trusted_device_user record_trusted_device_event
  remove-Holds now users ctx c u store h =
      OnOk->>= (Holds P Q) (load_team_device ctx c store) _ (λ device _.
        OnOk->>= (Holds P Q) (load_team_user_by_client_id ctx u users) _ (λ user _.
          let active = links_actively device.id user.id in
          OnOk-guard (Holds P Q) (any active store.assignments) not_found _ (λ _. (
            h.0,
            toggle active (deactivate now ctx) store.assignments (λ row. (refl, refl, refl)) h.1,
          ))))

  assign_all-Holds :
      (now : ℕ) (users : List User) (ctx : Caller) (device : TrustedDevice) (us : List String)
      (store : Store)
      → Holds P Q store
      → OnOk (Holds P Q) (assign_all now users ctx device us store)
  unfolding assign_all record_trusted_device_event
  assign_all-Holds now users ctx device [] store h = h
  assign_all-Holds now users ctx device (u ∷ us) store h =
      OnOk->>= (Holds P Q) (load_team_user_by_client_id ctx u users) _ (λ user _.
        let old = any (links device.id user.id) store.assignments in
        OnOk-guard (Holds P Q) (not old) integrity_error _ (λ fresh.
          assign_all-Holds now users ctx device us _ (
            h.0,
            link (new_assignment now ctx device.id user.id) store.assignments (ground arith) refl
                refl h.1,
          )))

  pub register-Holds :
      (platform : Platform) (now i : ℕ) (c s name : String) (us : List String) (users : List User)
      (ctx : Caller) (store : Store)
      → Holds P Q store
      → OnOk (Holds P Q) (register_trusted_device platform now i c s name us users ctx store)
  unfolding register_trusted_device record_trusted_device_event
  register-Holds platform now i c s name us users ctx store h =
      OnOk->>= (Holds P Q) (hash_device_secret platform s) _ (λ hashed _.
        OnOk-guard (Holds P Q) (not (any (has_id i) store.devices)) integrity_error _ (λ fresh.
          let device = new_device now i c name hashed ctx in
          assign_all-Holds now users ctx device us _
            (create device store.devices (ground arith) refl h.0, h.1)))
