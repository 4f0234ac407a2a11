-- ===== src/Base/Results.antt =====
-- http/errors.ts: the error that a service throws, and a computation that may throw it.
use Prim.Native.Nat.{ℕ}
use mathlib.Core.Path.{◌≡◌, refl}
use mathlib.Core.Bool.{Bool, true, false}
use mathlib.Core.Option.{Option, none, some}
use collab_ide.Base.Text.{Str, text}

pub record AppError : Type 0 where
  pub status : ℕ
  pub code : Str
  pub message : Str

pub data Result {ℓ} (A : Type ℓ) : Type ℓ where
  ok : A → Result A
  err : AppError → Result A

-- What the answers are to a violated unique constraint and to a missing record.
abbrev pub conflict : AppError
conflict = record { status = 409; code = text "CONFLICT"; message = text "That already exists" }

abbrev pub record_missing : AppError
record_missing = record { status = 404; code = text "NOT_FOUND"; message = text "Not found" }

-- `if (test) throw e`
abbrev pub throw_if : Bool → AppError → Result (Unit {0})
throw_if true e = err e
throw_if false e = ok tt

-- `if (value === null) throw e`
abbrev pub or_throw {ℓ} : {A : Type ℓ} → Option A → AppError → Result A
or_throw none e = err e
or_throw (some a) e = ok a

-- What comes after a call that throws is not run.
module _ {ℓ κ} {A : Type ℓ} {B : Type κ} where
  infixl 5 ◌>>=◌
  abbrev pub ◌>>=◌ : Result A → (A → Result B) → Result B
  err thrown >>= rest = err thrown
  ok value >>= rest = rest value

-- The call is made for what it may throw.
infixl 5 ◌>>◌
abbrev pub ◌>>◌ {ℓ} : {B : Type ℓ} → Result (Unit {0}) → Result B → Result B
err thrown >> rest = err thrown
ok done >> rest = rest

-- What a sequence of calls that succeeds has gone through.
pub bind_ok {ℓ κ} :
    {A : Type ℓ} {B : Type κ} (m : Result A) (rest : A → Result B) (b : B)
    → (m >>= rest) ≡ ok b
    → (a : A) × (m ≡ ok a) × (rest a ≡ ok b)
bind_ok (ok a) rest b e = (a, refl, e)
bind_ok (err x) rest b e = cc

pub then_ok {ℓ} :
    {B : Type ℓ} (m : Result (Unit {0})) (rest : Result B) (b : B)
    → (m >> rest) ≡ ok b
    → (m ≡ ok tt) × (rest ≡ ok b)
then_ok (ok tt) rest b e = (refl, e)
then_ok (err x) rest b e = cc

pub create_ok {ℓ} :
    {A : Type ℓ} (o : Option A) (x : AppError) (a : A) → or_throw o x ≡ ok a → o ≡ some a
create_ok none x a e = cc
create_ok (some b) x a e = cc
