-- ===== src/Auth/Trace/Closed.antt =====
-- A device that is revoked, in the table after each command.
use next_mark_backend_v.Prelude.{
  arith, ℕ, ◌≡◌, refl, ap, ◌∙◌, subst, ==_iff, inl, inr, String, Bool, true, false, ◌||◌, not,
  Option, none, some, List, [], ◌∷◌, ◌==◌, Bool-cases,
}
use next_mark_backend_v.Prelude.Sorting.{All}
use next_mark_backend_v.Prelude.Rows.{
  find, any, modify, add, is_some, OnSome, modify-All, any-modify, add-All, any-add,
}
use next_mark_backend_v.Prelude.Distinct.{Distinct}
use next_mark_backend_v.Result.{ok, OnOk, OnOk-guard, validation_failed}
use next_mark_backend_v.Auth.TrustedDevice.{
  TrustedDevice, Store, Caller, Platform, has_id, is_empty,
}
use next_mark_backend_v.Auth.Common.{required, load_team_device, record_trusted_device_event}
use next_mark_backend_v.Auth.Devices.{revoke_trusted_device, revoke_row}
use next_mark_backend_v.Auth.Trace.{Request, Command, run_all}
use next_mark_backend_v.Auth.Trace.Writes.{Written, revoke_row-Written}
use next_mark_backend_v.Auth.Trace.WellFormed.{WellFormed, same_device}
use next_mark_backend_v.Auth.Trace.Kept.{run_all-Holds}

-- A row that is another device's or that is revoked.
abbrev pub is_closed : ℕ → TrustedDevice → Bool
is_closed i row = not (has_id i row) || is_some row.revoked_at

abbrev pub Closed : ℕ → List TrustedDevice → Type 0
Closed i rows = (any (has_id i) rows ≡ true) × All (λ row. is_closed i row ≡ true) rows

write-Closed :
    (i j : ℕ) (f : TrustedDevice → TrustedDevice) (rows : List TrustedDevice)
    → ((row : TrustedDevice) → Written row (f row))
    → Closed i rows
    → Closed i (modify (has_id j) f rows)
write-Closed i j f rows w h = (
  any-modify (has_id j) (has_id i) f rows (λ row. ap (λ k. k == i) (w row).0) ∙ h.0,
  modify-All (has_id j) (λ row. is_closed i row ≡ true) f rows
      (λ row closed. ground (arith, (w row).0, (w row).1)) h.1,
)

other_id :
    (i : ℕ) (row : TrustedDevice) (rows : List TrustedDevice)
    → any (has_id row.id) rows ≡ false
    → any (has_id i) rows ≡ true
    → has_id i row ≡ false
other_id i row rows fresh old = elim (Bool-cases (has_id i row)) [
  | inl same ↦
      absurd (cc (subst (λ k. any (has_id k) rows ≡ false) ((==_iff row.id i).0 same) fresh, old))
  | inr other ↦ other
]

create-Closed :
    (i : ℕ) (row : TrustedDevice) (rows : List TrustedDevice)
    → any (has_id row.id) rows ≡ false
    → Closed i rows
    → Closed i (add row rows)
create-Closed i row rows fresh h =
    let other : has_id i row ≡ false = other_id i row rows fresh h.0 in
    (
      any-add (has_id i) row rows ∙ rw (h.0) refl,
      add-All (λ x. is_closed i x ≡ true) row rows (rw other refl) h.1,
    )

absent-All :
    (i : ℕ) (rows : List TrustedDevice)
    → any (has_id i) rows ≡ false
    → All (λ row. is_closed i row ≡ true) rows
unfolding any
absent-All i [] h = tt
absent-All i (row ∷ rows) h = (ground arith, absent-All i rows (ground arith))

revoke_row-closed :
    (now : ℕ) (u : Option ℕ) (i : ℕ) (row : TrustedDevice)
    → is_closed i (revoke_row now u row) ≡ true
revoke_row-closed now u i row =
    elim row.revoked_at
      as (λ o. is_closed i (revoke_row now u (record row { revoked_at = o })) ≡ true) [
        | none ↦ ground arith
        | some t ↦ ground arith
      ]

-- The write of the revocation closes the device.
revoke_row-All :
    (now : ℕ) (u : Option ℕ) (i : ℕ) (rows : List TrustedDevice)
    → Distinct same_device rows
    → All (λ row. is_closed i row ≡ true) (modify (has_id i) (revoke_row now u) rows)
unfolding modify
revoke_row-All now u i [] h = tt
revoke_row-All now u i (row ∷ rows) h = elim (Bool-cases (has_id i row)) [
  | inl here ↦
      let same : row.id ≡ i = (==_iff row.id i).0 here in
      rw here (
        revoke_row-closed now u i row,
        absent-All i rows (subst (λ k. any (has_id k) rows ≡ false) same h.0),
      )
  | inr later ↦ rw later (ground arith, revoke_row-All now u i rows h.1)
]

some_weaken :
    (row : TrustedDevice) (rows : List TrustedDevice) (o : Option TrustedDevice)
    → OnSome (λ x. any (has_id x.id) rows ≡ true) o
    → OnSome (λ x. any (has_id x.id) (row ∷ rows) ≡ true) o
unfolding any
some_weaken row rows none h = tt
some_weaken row rows (some x) h = ground arith

find-own :
    (p : TrustedDevice → Bool) (rows : List TrustedDevice)
    → OnSome (λ x. any (has_id x.id) rows ≡ true) (find p rows)
unfolding find any
find-own p [] = tt
find-own p (row ∷ rows) = elim (Bool-cases (p row)) [
  | inl here ↦ rw here (ground arith)
  | inr later ↦ rw later (some_weaken row rows (find p rows) (find-own p rows))
]

required-own :
    (rows : List TrustedDevice) (o : Option TrustedDevice)
    → OnSome (λ x. any (has_id x.id) rows ≡ true) o
    → OnOk (λ x. any (has_id x.id) rows ≡ true) (required o)
required-own rows none h = tt
required-own rows (some x) h = h

load_team_device-own :
    (ctx : Caller) (c : String) (store : Store)
    → OnOk (λ x. any (has_id x.id) store.devices ≡ true) (load_team_device ctx c store)
unfolding load_team_device
load_team_device-own ctx c store =
    OnOk-guard (λ x. any (has_id x.id) store.devices ≡ true) (not (is_empty c)) validation_failed _
      (λ _. required-own store.devices _ (find-own _ store.devices))

pub revoke-Closed :
    (now : ℕ) (ctx : Caller) (c : String) (device : TrustedDevice) (store : Store)
    → WellFormed store
    → load_team_device ctx c store ≡ ok device
    → OnOk (λ after. Closed device.id after.devices) (revoke_trusted_device now ctx c store)
unfolding revoke_trusted_device record_trusted_device_event
revoke-Closed now ctx c device store h e =
    let there : any (has_id device.id) store.devices ≡ true =
      subst (OnOk (λ x. any (has_id x.id) store.devices ≡ true)) e
        (load_team_device-own ctx c store) in
    let f = revoke_row now ctx.user_id in
    rw e (
      any-modify (has_id device.id) (has_id device.id) f store.devices
            (λ row. ap (λ k. k == device.id) (revoke_row-Written now ctx.user_id row).0)
          ∙ there,
      revoke_row-All now ctx.user_id device.id store.devices h.0,
    )

pub run_all-Closed :
    (i : ℕ) (platform : Platform) (steps : List (Request × Command)) (store : Store)
    → Closed i store.devices
    → Closed i (run_all platform steps store).devices
run_all-Closed i platform steps store h =
    (run_all-Holds (Closed i) (λ _. Unit) (write-Closed i)
      (λ row rows fresh _ closed. create-Closed i row rows fresh closed) (λ _ _ _ _ _. tt)
      (λ _ _ _ _ _ _. tt) platform steps store (h, tt)).0
