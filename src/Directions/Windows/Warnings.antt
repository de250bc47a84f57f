-- ===== src/Directions/Windows/Warnings.antt =====
-- When a stop is warned of, and what an evaluation leaves on it.
use mathlib.Core.List.{append-nil}
use next_mark_backend_v.Prelude.{
  ℕ, ◌≡◌, ◌≢◌, ◌↔◌, refl, ◌∙◌, ap, true, false, ◌||◌, ◌⊎◌, inl, inr, Option, none, some, List, [],
  ◌∷◌, ◌++◌, String, arith,
}
use next_mark_backend_v.Moment.{Moment, aware, ensure_utc}
use next_mark_backend_v.Directions.Windows.{
  RawWindow, Window, Warning, WarningState, normalize_windows, is_arrival_inside_any_window,
  warnings_at, pick_reference_window, warning_for, other_warnings, warnings_or_empty, is_filled,
  clear_reason, outside_time_window, none_if_empty, merge_time_window_warning,
  apply_stop_time_window_evaluation_for_windows, build_stop_time_warnings_for_windows,
}

-- The warning that an arrival gets is empty exactly where it lies inside a window or there is none.
pub warnings_at-nil :
    (t : ℕ) (ws : List Window)
    → (warnings_at t ws ≡ []) ↔ ((ws ≡ []) ⊎ (is_arrival_inside_any_window t ws ≡ true))
unfolding warnings_at warning_for pick_reference_window
warnings_at-nil t [] = (λ e. inl refl, λ h. refl)
warnings_at-nil t (w ∷ ws) = (λ e. ground arith, λ h. ground arith)

other_warnings-append :
    (xs ys : List Warning) → other_warnings (xs ++ ys) ≡ other_warnings xs ++ other_warnings ys
unfolding other_warnings
other_warnings-append [] ys = refl
other_warnings-append (x ∷ xs) ys = ground (arith, other_warnings-append xs ys)

other_warnings_idem : (xs : List Warning) → other_warnings (other_warnings xs) ≡ other_warnings xs
unfolding other_warnings
other_warnings_idem [] = refl
other_warnings_idem (x ∷ xs) = ground (arith, other_warnings_idem xs)

other_warnings-warning_for : (t : ℕ) (w : Option Window) → other_warnings (warning_for t w) ≡ []
unfolding other_warnings warning_for
other_warnings-warning_for t none = refl
other_warnings-warning_for t (some w) = refl

-- The policy's own warnings are all of its own kind.
other_warnings-warnings_at : (t : ℕ) (ws : List Window) → other_warnings (warnings_at t ws) ≡ []
unfolding warnings_at other_warnings
other_warnings-warnings_at t [] = refl
other_warnings-warnings_at t (w ∷ ws) =
    ground (arith, other_warnings-warning_for t (pick_reference_window t (w ∷ ws)))

other_warnings-build :
    (arrival : Option Moment) (windows : List RawWindow)
    → other_warnings (build_stop_time_warnings_for_windows arrival windows) ≡ []
unfolding build_stop_time_warnings_for_windows other_warnings ensure_utc
other_warnings-build none windows = refl
other_warnings-build (some m) windows = other_warnings-warnings_at _ (normalize_windows windows)

abbrev pub kept : WarningState → List Warning
kept s = other_warnings (warnings_or_empty s.constraint_warnings)

warnings_or_empty-none_if_empty : (ws : List Warning) → warnings_or_empty (none_if_empty ws) ≡ ws
warnings_or_empty-none_if_empty [] = refl
warnings_or_empty-none_if_empty (w ∷ ws) = refl

merge-kept :
    (s : WarningState) (new : List Warning)
    → other_warnings new ≡ []
    → kept (merge_time_window_warning s new) ≡ kept s
unfolding merge_time_window_warning
merge-kept s [] e =
    rw (warnings_or_empty-none_if_empty (kept s))
      (other_warnings_idem (warnings_or_empty s.constraint_warnings))
merge-kept s (w ∷ ws) e =
    other_warnings-append (kept s) (w ∷ ws)
    ∙ rw e (append-nil _ ∙ other_warnings_idem (warnings_or_empty s.constraint_warnings))

clear_reason_idem : (r : Option String) → clear_reason (clear_reason r) ≡ clear_reason r
unfolding clear_reason
clear_reason_idem none = refl
clear_reason_idem (some r) = ground arith

abbrev merged : List Warning → Option String → List Warning → WarningState
merged filtered reason [] = record {
  has_constraint_violation = is_filled filtered;
  constraint_warnings = none_if_empty filtered;
  reason_was_skipped = clear_reason reason;
}
merged filtered reason (w ∷ ws) = record {
  has_constraint_violation = true;
  constraint_warnings = some (filtered ++ w ∷ ws);
  reason_was_skipped = some outside_time_window;
}

merge-eq-merged :
    (s : WarningState) (new : List Warning)
    → merge_time_window_warning s new ≡ merged (kept s) s.reason_was_skipped new
unfolding merge_time_window_warning
merge-eq-merged s [] = refl
merge-eq-merged s (w ∷ ws) = refl

-- A second evaluation with the same warnings writes what is there.
merge-merge :
    (s : WarningState) (new : List Warning)
    → other_warnings new ≡ []
    → merge_time_window_warning (merge_time_window_warning s new) new
      ≡ merge_time_window_warning s new
unfolding merge_time_window_warning
merge-merge s [] e =
    let once = merge_time_window_warning s [] in
    let same : kept once ≡ kept s = merge-kept s [] e in
    let step : merged (kept once) (clear_reason s.reason_was_skipped) []
        ≡ merged (kept s) s.reason_was_skipped [] =
      ap (λ k. merged k (clear_reason s.reason_was_skipped) []) same
      ∙ ap (λ r. record (merged (kept s) none []) { reason_was_skipped = r })
          (clear_reason_idem s.reason_was_skipped) in
    step
merge-merge s (w ∷ ws) e = ap (λ k. merged k none (w ∷ ws)) (merge-kept s (w ∷ ws) e)

abbrev pub evaluate : List RawWindow → Option Moment → WarningState → WarningState
evaluate windows arrival s = apply_stop_time_window_evaluation_for_windows s arrival windows

-- Evaluating a stop keeps every warning of another kind, in order; and a second evaluation at the
-- same arrival and windows changes no column.
pub evaluate_again :
    (s : WarningState) (arrival : Option Moment) (windows : List RawWindow)
    → let once = evaluate windows arrival s in
      (kept once ≡ kept s) × (evaluate windows arrival once ≡ once)
unfolding apply_stop_time_window_evaluation_for_windows
evaluate_again s arrival windows =
    let new = build_stop_time_warnings_for_windows arrival windows in
    (
      merge-kept s new (other_warnings-build arrival windows),
      merge-merge s new (other_warnings-build arrival windows),
    )

flag-merge :
    (s : WarningState) (new : List Warning)
    → (merge_time_window_warning s new).has_constraint_violation
      ≡ (is_filled (kept s) || is_filled new)
unfolding merge_time_window_warning
flag-merge s [] = ground arith
flag-merge s (w ∷ ws) = ground arith

Missed : List Warning → ℕ → List Window → Type 0
Missed own t ws = (own ≢ []) ⊎ ((ws ≢ []) × (is_arrival_inside_any_window t ws ≡ false))

filled_iff :
    (own : List Warning) (t : ℕ) (ws : List Window)
    → ((is_filled own || is_filled (warnings_at t ws)) ≡ true) ↔ Missed own t ws
unfolding Missed warnings_at warning_for pick_reference_window
filled_iff (w ∷ own) t ws = (λ e. inl (λ n. cc), λ h. refl)
filled_iff [] t [] = (λ e. cc, λ h. ground arith)
filled_iff [] t (w ∷ ws) = (λ e. inr (λ n. cc, ground arith), λ h. ground arith)

-- The flag on a stop with a known arrival is raised exactly where a warning of another kind stays,
-- or the arrival misses all windows, of which there are some.
pub violation_iff :
    (s : WarningState) (t : ℕ) (windows : List RawWindow)
    → ((evaluate windows (some (aware t)) s).has_constraint_violation ≡ true) ↔ (
        (kept s ≢ [])
        ⊎ ((normalize_windows windows ≢ [])
            × (is_arrival_inside_any_window t (normalize_windows windows) ≡ false)))
unfolding apply_stop_time_window_evaluation_for_windows build_stop_time_warnings_for_windows
    ensure_utc Missed
violation_iff s t windows =
    rw (flag-merge s (warnings_at t (normalize_windows windows)))
      (filled_iff (kept s) t (normalize_windows windows))
