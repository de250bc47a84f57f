-- ===== src/Auth/Roster.antt =====
-- What the assignments stand for: which users a device may sign in, as a function of the two ids.
use next_mark_backend_v.Prelude.{
  arith, ℕ, ◌≡◌, refl, ap, ◌∙◌, inl, inr, String, Bool, true, false, ◌&&◌, ◌||◌, not, Option, none,
  some, List, [], ◌∷◌, ◌==◌, if◌then◌else◌, Bool-cases, Option-cases,
}
use next_mark_backend_v.Prelude.Rows.{find, any, modify, add, any-add, find-none}
use next_mark_backend_v.Prelude.Distinct.{Distinct}
use next_mark_backend_v.Result.{Result, ok, err, validation_failed, not_found, ◌>>=◌, ◌>>◌, guard}
use next_mark_backend_v.Auth.TrustedDevice.{
  TrustedDevice, TrustedDeviceUser, user_assigned, user_removed, Store, Caller, links,
  links_actively, is_user_assigned_to_device,
}
use next_mark_backend_v.Auth.Common.{
  User, load_team_device, load_team_user_by_client_id, record_trusted_device_event,
}
use next_mark_backend_v.Auth.Assignments.{
  new_assignment, reactivate, deactivate, assigned_rows, assign_trusted_device_user,
  remove_trusted_device_user,
}
use next_mark_backend_v.Auth.Trace.WellFormed.{same_pair, WellFormed}

abbrev pub Roster : Type 0
Roster = ℕ → ℕ → Bool

abbrev pub roster : Store → Roster
roster store device_id user_id = is_user_assigned_to_device (some user_id) (some device_id) store

abbrev row_roster : List TrustedDeviceUser → Roster
row_roster rows d u = any (links_actively d u) rows

abbrev pub is_pair : ℕ → ℕ → ℕ → ℕ → Bool
is_pair d u d' u' = d == d' && u == u'

-- Insertion into the set of pairs, and removal from it.
abbrev pub link : ℕ → ℕ → Roster → Result Roster
link d u r = if r d u then err validation_failed else ok (λ d' u'. is_pair d u d' u' || r d' u')

abbrev pub unlink : ℕ → ℕ → Roster → Result Roster
unlink d u r = if r d u then ok (λ d' u'. not (is_pair d u d' u') && r d' u') else err not_found

abbrev pub map_ok {κ μ} : {S : Type κ} {T : Type μ} → (S → T) → Result S → Result T
map_ok f (err raised) = err raised
map_ok f (ok value) = ok (f value)

map_ok->>= {κ μ ν} :
    {S : Type κ} {T : Type μ} {R : Type ν} (f : T → R) (call : Result S) (next : S → Result T)
    (other : S → Result R)
    → ((value : S) → map_ok f (next value) ≡ other value)
    → map_ok f (call >>= next) ≡ (call >>= other)
map_ok->>= f (err raised) next other h = refl
map_ok->>= f (ok value) next other h = h value

map_ok-ok {κ μ ν} :
    {S : Type κ} {T : Type μ} {R : Type ν} (f : S → R) (g : T → R) (call : Result S) (make : S → T)
    → ((value : S) → g (make value) ≡ f value)
    → map_ok g (call >>= λ value. ok (make value)) ≡ map_ok f call
map_ok-ok f g (err raised) make h = refl
map_ok-ok f g (ok value) make h = ap ok (h value)

-- The rows that link a pair, where there is one at most.
unlinked :
    (d u : ℕ) (row : TrustedDeviceUser) (rows : List TrustedDeviceUser)
    → any (same_pair row) rows ≡ false
    → links d u row ≡ true
    → any (links_actively d u) rows ≡ false
unfolding any
unlinked d u row [] h e = refl
unlinked d u row (x ∷ rows) h e =
    let rest = unlinked d u row rows (ground arith) e in ground (arith)

any-unlinked :
    (d u : ℕ) (rows : List TrustedDeviceUser)
    → any (links d u) rows ≡ false
    → any (links_actively d u) rows ≡ false
unfolding any
any-unlinked d u [] h = refl
any-unlinked d u (x ∷ rows) h = ground (arith, any-unlinked d u rows)

abbrev active_of : Option TrustedDeviceUser → Bool
active_of none = false
active_of (some row) = row.is_active

any-find :
    (d u : ℕ) (rows : List TrustedDeviceUser)
    → Distinct same_pair rows
    → any (links_actively d u) rows ≡ active_of (find (links d u) rows)
unfolding any find
any-find d u [] h = refl
any-find d u (x ∷ rows) h = elim (Bool-cases (links d u x)) [
  | inl here ↦ rw (here, unlinked d u x rows h.0 here) (ground arith)
  | inr later ↦ rw later (any-find d u rows h.1)
]

reactivate-roster :
    (now : ℕ) (ctx : Caller) (d u d' u' : ℕ) (rows : List TrustedDeviceUser)
    → any (links d u) rows ≡ true
    → any (links_actively d u) rows ≡ false
    → row_roster (modify (links d u) (reactivate now ctx) rows) d' u'
      ≡ (is_pair d u d' u' || row_roster rows d' u')
unfolding any modify
reactivate-roster now ctx d u d' u' [] h e = absurd (cc)
reactivate-roster now ctx d u d' u' (x ∷ rows) h e = elim (Bool-cases (links d u x)) [
  | inl here ↦ rw here (ground arith)
  | inr later ↦
      let rest = reactivate-roster now ctx d u d' u' rows (ground arith) (ground arith) in
      rw (later, rest) (ground arith)
]

deactivate-roster :
    (now : ℕ) (ctx : Caller) (d u d' u' : ℕ) (rows : List TrustedDeviceUser)
    → Distinct same_pair rows
    → row_roster (modify (links_actively d u) (deactivate now ctx) rows) d' u'
      ≡ (not (is_pair d u d' u') && row_roster rows d' u')
unfolding any modify
deactivate-roster now ctx d u d' u' [] h = ground arith
deactivate-roster now ctx d u d' u' (x ∷ rows) h = elim (Bool-cases (links_actively d u x)) [
  | inl here ↦ elim (Bool-cases (is_pair d u d' u')) [
    | inl own ↦
        let last = unlinked d' u' x rows h.0 (ground arith) in rw (here, own, last) (ground arith)
    | inr other ↦
        let apart : links d' u' x ≡ false = ground arith in rw (here, other, apart) (ground arith)
  ]
  | inr later ↦
      let rest = deactivate-roster now ctx d u d' u' rows h.1 in rw (later, rest) (ground arith)
]

add-roster :
    (now : ℕ) (ctx : Caller) (d u d' u' : ℕ) (rows : List TrustedDeviceUser)
    → row_roster (add (new_assignment now ctx d u) rows) d' u'
      ≡ (is_pair d u d' u' || row_roster rows d' u')
add-roster now ctx d u d' u' rows =
    any-add (links_actively d' u') (new_assignment now ctx d u) rows ∙ ground arith

links-any :
    (d u : ℕ) (row : TrustedDeviceUser) (rows : List TrustedDeviceUser)
    → find (links d u) rows ≡ some row
    → any (links d u) rows ≡ true
links-any d u row rows e = elim (Bool-cases (any (links d u) rows)) [
  | inl yes_any ↦ yes_any
  | inr none_any ↦ absurd (cc (find-none (links d u) rows none_any, e))
]

assigned_rows-roster :
    (now : ℕ) (ctx : Caller) (d u : ℕ) (rows : List TrustedDeviceUser)
    → Distinct same_pair rows
    → map_ok row_roster (assigned_rows now ctx d u (find (links d u) rows) rows)
      ≡ link d u (row_roster rows)
unfolding assigned_rows
assigned_rows-roster now ctx d u rows h = elim (Option-cases (find (links d u) rows)) [
  | inl e ↦
      let free : row_roster rows d u ≡ false = any-find d u rows h ∙ ap active_of e in
      rw (e, free) (λ i. ok (λ d' u'. add-roster now ctx d u d' u' rows i))
  | inr (row, e) ↦
      let state : row_roster rows d u ≡ row.is_active = any-find d u rows h ∙ ap active_of e in
      let old = links-any d u row rows e in
      elim (Bool-cases row.is_active) [
        | inl active ↦ rw (e, active, state ∙ active) refl
        | inr ended ↦
            let free : row_roster rows d u ≡ false = state ∙ ended in
            rw (e, ended, free)
              (λ i. ok (λ d' u'. reactivate-roster now ctx d u d' u' rows old free i))
      ]
]

remove_rows-roster :
    (now : ℕ) (ctx : Caller) (device : TrustedDevice) (u : ℕ) (store : Store)
    → Distinct same_pair store.assignments
    → map_ok roster (
        guard (any (links_actively device.id u) store.assignments) not_found
        >> ok (
            record_trusted_device_event ctx user_removed device (some u) (record store {
              assignments =
                  modify (links_actively device.id u) (deactivate now ctx) store.assignments;
            })))
      ≡ unlink device.id u (roster store)
unfolding record_trusted_device_event is_user_assigned_to_device
remove_rows-roster now ctx device u store h =
    elim (Bool-cases (row_roster store.assignments device.id u)) [
      | inl active ↦
          rw active
            (λ i. ok (λ d' u'. deactivate-roster now ctx device.id u d' u' store.assignments h i))
      | inr free ↦ rw free refl
    ]

-- Assigning a user to a device puts the pair into the set of the active pairs, and fails if it is in
-- it: by way of the rows, where a pair has one at most, the command is insertion into a set.
pub assign-link :
    (now : ℕ) (users : List User) (ctx : Caller) (c u : String) (store : Store)
    → WellFormed store
    → map_ok roster (assign_trusted_device_user now users ctx c u store) ≡ (do
      device ← load_team_device ctx c store
      user ← load_team_user_by_client_id ctx u users
      link device.id user.id (roster store))
unfolding assign_trusted_device_user record_trusted_device_event is_user_assigned_to_device
assign-link now users ctx c u store h =
    map_ok->>= roster (load_team_device ctx c store) _ _ (λ device.
      map_ok->>= roster (load_team_user_by_client_id ctx u users) _ _ (λ user.
        map_ok-ok row_roster roster
          (assigned_rows now ctx device.id user.id
            (find (links device.id user.id) store.assignments) store.assignments)
          (λ rows.
            record_trusted_device_event ctx user_assigned device (some user.id)
              (record store { assignments = rows }))
          (λ rows. refl)
        ∙ assigned_rows-roster now ctx device.id user.id store.assignments h.1))

-- Removing a user from a device takes the pair out of the set of the active pairs, and fails if it
-- is not in it.
pub remove-unlink :
    (now : ℕ) (users : List User) (ctx : Caller) (c u : String) (store : Store)
    → WellFormed store
    → map_ok roster (remove_trusted_device_user now users ctx c u store) ≡ (do
      device ← load_team_device ctx c store
      user ← load_team_user_by_client_id ctx u users
      unlink device.id user.id (roster store))
unfolding remove_trusted_device_user record_trusted_device_event is_user_assigned_to_device
remove-unlink now users ctx c u store h =
    map_ok->>= roster (load_team_device ctx c store) _ _ (λ device.
      map_ok->>= roster (load_team_user_by_client_id ctx u users) _ _
        (λ user. remove_rows-roster now ctx device user.id store h.1))
