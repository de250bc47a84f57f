-- ===== src/Result.antt =====
-- Delivery_app_BK/errors: a function that may raise one of the domain errors returns a `Result`.
-- Messages are left out, except where a test or a caller reads them.
use next_mark_backend_v.Prelude.{◌≡◌, refl, Bool, true, false, if◌then◌else◌}

pub data Error : Type 0 where
  validation_failed not_found permission_denied : Error
  delivery_window_past_time delivery_window_overlap delivery_window_limit_exceeded : Error
  -- SQLAlchemy's, when a row breaks a unique constraint.
  integrity_error : Error

-- The value that a call returns, or the error that it raises.
pub data Result {κ} (T : Type κ) : Type κ where
  err : Error → Result T
  ok : T → Result T

-- `if not test: raise error`
abbrev pub guard : Bool → Error → Result (Unit {0})
guard false raised = err raised
guard true raised = ok tt

-- The call after another, unless that one raises.
abbrev pub ◌>>=◌ {κ μ} : {S : Type κ} {T : Type μ} → Result S → (S → Result T) → Result T
err raised >>= next = err raised
ok value >>= next = next value

abbrev pub ◌>>◌ {κ} : {T : Type κ} → Result (Unit {0}) → Result T → Result T
checked >> next = checked >>= λ _. next

-- What returned before, if both did.
pub >>=-eq-ok {κ μ} :
    {S : Type κ} {T : Type μ} (call : Result S) (next : S → Result T) {t : T}
    → (call >>= next) ≡ ok t
    → (value : S) × (call ≡ ok value) × (next value ≡ ok t)
>>=-eq-ok (err raised) next e = cc
>>=-eq-ok (ok value) next e = (value, refl, e)

-- What holds of the value, if the call returns.
abbrev pub OnOk {κ μ} : {T : Type κ} → (T → Type μ) → Result T → Type μ
OnOk P (err raised) = Unit
OnOk P (ok value) = P value

pub OnOk->>= {κ μ ν} :
    {S : Type κ} {T : Type μ} (P : T → Type ν) (call : Result S) (next : S → Result T)
    → ((value : S) → call ≡ ok value → OnOk P (next value))
    → OnOk P (call >>= next)
OnOk->>= P (err raised) next h = tt
OnOk->>= P (ok value) next h = h value refl

pub OnOk->>=_of {κ μ ν ο} :
    {S : Type κ} {T : Type μ} (R : S → Type ν) (P : T → Type ο) (call : Result S)
    (next : S → Result T)
    → OnOk R call
    → ((value : S) → R value → OnOk P (next value))
    → OnOk P (call >>= next)
OnOk->>=_of R P (err raised) next r h = tt
OnOk->>=_of R P (ok value) next r h = h value r

pub OnOk-guard {κ μ} :
    {T : Type κ} (P : T → Type μ) (b : Bool) (raised : Error) (next : Result T)
    → (b ≡ true → OnOk P next)
    → OnOk P (guard b raised >> next)
OnOk-guard P false raised next h = tt
OnOk-guard P true raised next h = h refl

pub OnOk-if {κ μ} :
    {T : Type κ} (P : T → Type μ) (b : Bool) (x y : Result T)
    → OnOk P x
    → OnOk P y
    → OnOk P (if b then x else y)
OnOk-if P false x y hx hy = hy
OnOk-if P true x y hx hy = hx

infixl 5 ◌>>=◌ ◌>>◌
