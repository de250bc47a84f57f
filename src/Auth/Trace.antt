-- ===== src/Auth/Trace.antt =====
-- The commands on trusted devices as steps, each in a transaction of its own.
pub mod Writes
pub mod Links
pub mod Kept
pub mod WellFormed
pub mod Closed
pub mod Revoked
use next_mark_backend_v.Prelude.{ℕ, ◌≡◌, refl, String, Bool, Option, List, [], ◌∷◌}
use next_mark_backend_v.Result.{Result, ok, err, ◌>>=◌}
use next_mark_backend_v.Auth.TrustedDevice.{
  Store, TrustedDevice, Caller, Platform, resolve_trusted_device,
}
use next_mark_backend_v.Auth.Common.{User}
use next_mark_backend_v.Auth.Devices.{
  DeviceUpdate, revoke_trusted_device, rotate_trusted_device_secret, update_trusted_device,
}
use next_mark_backend_v.Auth.Assignments.{
  assign_trusted_device_user, remove_trusted_device_user, register_trusted_device,
}

-- What a command draws from its surroundings: the clock, the table of users and the caller.
pub record Request : Type 0 where
  pub now : ℕ
  pub users : List User
  pub ctx : Caller

-- `register` takes the drawn id, client id and secret, the name and the users.
pub data Command : Type 0 where
  register : ℕ → String → String → String → List String → Command
  update : DeviceUpdate → String → Command
  revoke : String → Command
  rotate : String → String → Command
  assign : String → String → Command
  remove : String → String → Command
  present : Command

unfoldable pub run : Platform → Request → Command → Store → Result Store
unfolding resolve_trusted_device revoke_trusted_device rotate_trusted_device_secret
    update_trusted_device assign_trusted_device_user remove_trusted_device_user
    register_trusted_device
run platform request (register device_id client_id raw_secret name user_client_ids) store =
    register_trusted_device platform request.now device_id client_id raw_secret name user_client_ids
      request.users request.ctx store
run platform request (update fields device_client_id) store =
    update_trusted_device request.now fields request.ctx device_client_id store
run platform request (revoke device_client_id) store =
    revoke_trusted_device request.now request.ctx device_client_id store
run platform request (rotate raw_secret device_client_id) store =
    rotate_trusted_device_secret platform request.now raw_secret request.ctx device_client_id store
run platform request (assign device_client_id user_client_id) store =
    assign_trusted_device_user request.now request.users request.ctx device_client_id user_client_id
      store
run platform request (remove device_client_id user_client_id) store =
    remove_trusted_device_user request.now request.users request.ctx device_client_id user_client_id
      store
run platform request present store =
    resolve_trusted_device platform request.now request.ctx store >>= λ found. ok found.1

-- A command that raises is rolled back.
abbrev pub committed : Store → Result Store → Store
committed before (err _) = before
committed before (ok after) = after

unfoldable pub run_all : Platform → List (Request × Command) → Store → Store
unfolding run
run_all platform [] store = store
run_all platform (step ∷ steps) store =
    run_all platform steps (committed store (run platform step.0 step.1 store))
