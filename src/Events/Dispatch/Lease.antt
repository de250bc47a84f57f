-- ===== src/Events/Dispatch/Lease.antt =====
-- How often an event is tried.
use next_mark_backend_v.Prelude.{
  ℕ, zero, suc, ◌+◌, ◌*◌, ◌≤◌, ◌≡◌, refl, ◌⊎◌, inl, inr, String, true, false, some, leb,
  if◌then◌else◌, arith, Bool-cases,
}
use next_mark_backend_v.Moment.{second}
use next_mark_backend_v.Events.Dispatch.{
  pending, dead, EventRow, claim_row, mark_claim_failed, send_row,
}

-- The row after `k` rounds, at the times `now`, in each of which `dispatcher_id` has claimed it and
-- the job queue has refused it.
unfoldable pub refused : ℕ → (ℕ → ℕ) → String → String → EventRow → EventRow
unfolding send_row
refused zero now dispatcher_id e row = row
refused (suc k) now dispatcher_id e row =
    send_row (now k) (claim_row (now k) dispatcher_id (refused k now dispatcher_id e row)) (some e)

attempts-refused :
    (k : ℕ) (now : ℕ → ℕ) (d e : String) (row : EventRow)
    → (refused k now d e row).dispatch_attempts ≡ row.dispatch_attempts + k
unfolding refused mark_claim_failed
attempts-refused zero now d e row = omega arith
attempts-refused (suc k) now d e row = ground (arith, attempts-refused k now d e row)

mark_claim_failed-lem :
    (now n : ℕ) (row : EventRow) (e : String)
    → row.dispatch_attempts + 1 ≡ n
    → let after = mark_claim_failed now row e in
      (after.dispatch_status ≡ (if leb 5 n then dead else pending))
      × ((leb 5 n ≡ true)
          ⊎ ((now + 15 * second ≤ after.next_attempt_at)
              × (after.next_attempt_at ≤ now + 300 * second)))
unfolding mark_claim_failed
mark_claim_failed-lem now n row e h = elim (Bool-cases (leb 5 n)) [
  | inl last ↦
      let tried : leb 5 (row.dispatch_attempts + 1) ≡ true = ground arith in
      rw (tried, last) (refl, inl refl)
  | inr more ↦
      let tried : leb 5 (row.dispatch_attempts + 1) ≡ false = ground arith in
      rw (tried, more) (refl, inr (ground arith, ground arith))
]

-- After `k + 1` refusals a row is dead if that makes five attempts in all or more, and pending if
-- not; a pending one waits at least 15 seconds and at most 300 from the last refusal.
pub status-refused :
    (k : ℕ) (now : ℕ → ℕ) (d e : String) (row : EventRow)
    → let after = refused (suc k) now d e row in
      (after.dispatch_status ≡ (if leb 5 (row.dispatch_attempts + suc k) then dead else pending))
      × ((leb 5 (row.dispatch_attempts + suc k) ≡ true)
          ⊎ ((now k + 15 * second ≤ after.next_attempt_at)
              × (after.next_attempt_at ≤ now k + 300 * second)))
unfolding refused
status-refused k now d e row =
    mark_claim_failed-lem (now k) (row.dispatch_attempts + suc k)
      (claim_row (now k) d (refused k now d e row)) e
      (omega (arith, attempts-refused k now d e row))
