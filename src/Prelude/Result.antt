-- ===== src/Prelude/Result.antt =====
-- A call that may raise. The errors are those that the modelled code meets: violations of the
-- database's constraints, a TypeError of the interpreter, and `HTTPException(status, detail)`.
use Prim.Native.Nat.{ℕ}
use Prim.Native.String.{String}
use mathlib.Core.Path.{◌≡◌, refl}
use mathlib.Core.Bool.{Bool, true, false}
use charge_pulse.Prelude.Tests.{if◌then◌else◌}

pub data Error : Type 0 where
  not_null_violation unique_violation foreign_key_violation check_violation type_error : Error
  http : ℕ → String → Error

-- what a call returns, or the exception that it raises
pub data Result {ℓ} (Value : Type ℓ) : Type ℓ where
  err : Error → Result Value
  ok : Value → Result Value

-- the rest of the code, which an exception skips
infixl 5 ◌>>=◌
abbrev pub ◌>>=◌ {ℓ κ} :
    {Before : Type ℓ} {After : Type κ} → Result Before → (Before → Result After) → Result After
err raised >>= rest = err raised
ok value >>= rest = rest value

-- Where the whole has returned, its first part has, and so has the rest on what that returned.
pub bind-eq-ok {ℓ κ} :
    {Before : Type ℓ} {After : Type κ} (call : Result Before) (rest : Before → Result After)
    {final : After}
    → ◌≡◌ {A = Result After} (call >>= rest) (ok final)
    → (value : Before) × (call ≡ ok value) × (rest value ≡ ok final)
bind-eq-ok (err raised) rest returned = cc
bind-eq-ok (ok value) rest returned = (value, refl, returned)

ok_inj {ℓ} : {A : Type ℓ} {x y : A} → ok x ≡ ok y → x ≡ y
ok_inj e = cc

-- a guard that has passed
pub if-err-ok {ℓ} :
    {A : Type ℓ} (b : Bool) (e : Error) {x y : A}
    → (if b then err e else ok x) ≡ ok y
    → (b ≡ false) × (x ≡ y)
if-err-ok true e h = cc
if-err-ok false e h = (refl, ok_inj h)

pub if-ok-err {ℓ} :
    {A : Type ℓ} (b : Bool) (e : Error) {x y : A}
    → (if b then ok x else err e) ≡ ok y
    → (b ≡ true) × (x ≡ y)
if-ok-err true e h = (refl, ok_inj h)
if-ok-err false e h = cc
