-- ===== src/Auth/Trace/WellFormed.antt =====
-- The unique keys of the tables, and when an assignment is active.
use next_mark_backend_v.Prelude.{arith, ◌≡◌, refl, inl, inr, Bool, not, List, [], ◌∷◌, Bool-cases}
use next_mark_backend_v.Prelude.Sorting.{All}
use next_mark_backend_v.Prelude.Rows.{modify, is_some, add-All}
use next_mark_backend_v.Prelude.Distinct.{Distinct, Distinct-add, Distinct-modify}
use next_mark_backend_v.Auth.TrustedDevice.{
  TrustedDevice, TrustedDeviceUser, Store, Platform, has_id, links,
}
use next_mark_backend_v.Auth.Trace.{Request, Command, run_all}
use next_mark_backend_v.Auth.Trace.Links.{Toggled}
use next_mark_backend_v.Auth.Trace.Kept.{run_all-Holds}

abbrev pub same_device : TrustedDevice → TrustedDevice → Bool
same_device a b = has_id a.id b

abbrev pub same_pair : TrustedDeviceUser → TrustedDeviceUser → Bool
same_pair a b = links a.trusted_device_id a.user_id b

abbrev pub Settled : TrustedDeviceUser → Type 0
Settled row = row.is_active ≡ not (is_some row.revoked_at)

-- One device for an id, one assignment for a pair of device and user, and an assignment is active
-- just when it bears no revocation.
abbrev pub WellFormed : Store → Type 0
WellFormed store =
    Distinct same_device store.devices
    × Distinct same_pair store.assignments
    × All Settled store.assignments

abbrev Linked : List TrustedDeviceUser → Type 0
Linked rows = Distinct same_pair rows × All Settled rows

modify-Settled :
    (p : TrustedDeviceUser → Bool) (f : TrustedDeviceUser → TrustedDeviceUser)
    (rows : List TrustedDeviceUser)
    → ((row : TrustedDeviceUser) → Toggled row (f row))
    → All Settled rows
    → All Settled (modify p f rows)
unfolding modify
modify-Settled p f [] w h = tt
modify-Settled p f (row ∷ rows) w h = elim (Bool-cases (p row)) [
  | inl here ↦ rw here ((w row).2, h.1)
  | inr later ↦ rw later (h.0, modify-Settled p f rows w h.1)
]

-- Every sequence of commands keeps the tables well formed.
pub run_all-WellFormed :
    (platform : Platform) (steps : List (Request × Command)) (store : Store)
    → WellFormed store
    → WellFormed (run_all platform steps store)
run_all-WellFormed platform steps store h =
    let kept =
      run_all-Holds (Distinct same_device) Linked
        (λ i f rows w d.
          Distinct-modify same_device (has_id i) f (λ a b. rw ((w a).0) refl)
            (λ a b. rw ((w b).0) refl) rows d)
        (λ row rows fresh _ d. Distinct-add same_device (λ a b. ground arith) row rows fresh d)
        (λ p f rows w l. (
          Distinct-modify same_pair p f (λ a b. rw ((w a).0, (w a).1) refl)
              (λ a b. rw ((w b).0, (w b).1) refl) rows l.0,
          modify-Settled p f rows w l.1,
        ))
        (λ row rows fresh active unrevoked l. (
          Distinct-add same_pair (λ a b. ground arith) row rows fresh l.0,
          add-All Settled row rows (rw (active, unrevoked) refl) l.1,
        ))
        platform steps store (h.0, (h.1, h.2)) in
    (kept.0, kept.1.0, kept.1.1)
