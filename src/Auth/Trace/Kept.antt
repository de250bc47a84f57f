-- ===== src/Auth/Trace/Kept.antt =====
-- What every command keeps: a predicate on the devices and one on the assignments, each kept by
-- the writes that the commands make.
use next_mark_backend_v.Prelude.{ℕ, ◌≡◌, Bool, true, false, none, List, [], ◌∷◌}
use next_mark_backend_v.Prelude.Rows.{any, modify, add}
use next_mark_backend_v.Result.{Result, ok, err, OnOk}
use next_mark_backend_v.Auth.TrustedDevice.{
  TrustedDevice, TrustedDeviceUser, Store, Platform, has_id, links,
}
use next_mark_backend_v.Auth.Trace.{
  Request, Command, run, run_all, committed, register, update, revoke, rotate, assign, remove,
  present,
}
use next_mark_backend_v.Auth.Trace.Writes.{
  Written, Holds, revoke-Holds, rotate-Holds, update-Holds, present-Holds,
}
use next_mark_backend_v.Auth.Trace.Links.{Toggled, assign-Holds, remove-Holds, register-Holds}

module _ (P : List TrustedDevice → Type 0) (Q : List TrustedDeviceUser → Type 0)
    (write : (i : ℕ) (f : TrustedDevice → TrustedDevice) (rows : List TrustedDevice)
      → ((row : TrustedDevice) → Written row (f row))
      → P rows
      → P (modify (has_id i) f rows))
    (create : (row : TrustedDevice) (rows : List TrustedDevice)
      → any (has_id row.id) rows ≡ false
      → row.revoked_at ≡ none
      → P rows
      → P (add row rows))
    (toggle : (p : TrustedDeviceUser → Bool) (f : TrustedDeviceUser → TrustedDeviceUser)
        (rows : List TrustedDeviceUser)
      → ((row : TrustedDeviceUser) → Toggled row (f row))
      → Q rows
      → Q (modify p f rows))
    (link : (row : TrustedDeviceUser) (rows : List TrustedDeviceUser)
      → any (links row.trusted_device_id row.user_id) rows ≡ false
      → row.is_active ≡ true
      → row.revoked_at ≡ none
      → Q rows
      → Q (add row rows)) where
  run-Holds :
      (platform : Platform) (request : Request) (command : Command) (store : Store)
      → Holds P Q store
      → OnOk (Holds P Q) (run platform request command store)
  unfolding run
  run-Holds platform request (register i c s name us) store h =
      register-Holds P Q create toggle link platform request.now i c s name us request.users
        request.ctx store h
  run-Holds platform request (update fields c) store h =
      update-Holds P Q write request.now fields request.ctx c store h
  run-Holds platform request (revoke c) store h =
      revoke-Holds P Q write request.now request.ctx c store h
  run-Holds platform request (rotate s c) store h =
      rotate-Holds P Q write platform request.now s request.ctx c store h
  run-Holds platform request (assign c u) store h =
      assign-Holds P Q create toggle link request.now request.users request.ctx c u store h
  run-Holds platform request (remove c u) store h =
      remove-Holds P Q create toggle link request.now request.users request.ctx c u store h
  run-Holds platform request present store h =
      present-Holds P Q write platform request.now request.ctx store h

  committed-Holds :
      (store : Store) (result : Result Store)
      → Holds P Q store
      → OnOk (Holds P Q) result
      → Holds P Q (committed store result)
  committed-Holds store (err _) h r = h
  committed-Holds store (ok after) h r = r

  pub run_all-Holds :
      (platform : Platform) (steps : List (Request × Command)) (store : Store)
      → Holds P Q store
      → (Holds P Q) (run_all platform steps store)
  unfolding run_all
  run_all-Holds platform [] store h = h
  run_all-Holds platform (step ∷ steps) store h = run_all-Holds platform steps _ (
      committed-Holds store (run platform step.0 step.1 store) h
        (run-Holds platform step.0 step.1 store h))
