-- ===== src/Prelude/Result.antt =====
-- Fallible code: a value, or the exception that the code raises.
use mathlib.Core.Path.{◌≡◌, refl, subst}
use mathlib.Core.Bool.{Bool, true, false}
use mathlib.Core.Logic.{◌⊎◌, inl, inr}
use vfobs.Prelude.Tests.{if◌then◌else◌}
use Prim.Native.Nat.{ℕ}
use Prim.Native.String.{String}
use mathlib.Core.Option.{Option, none, some}

-- The exceptions of the program. An `HTTPException` has a status and a detail.
pub data Exception : Type 0 where
  validation_error value_error type_error key_error : Exception
  vtf_auth_error read_unavailable multiple_results_found db_api_error : Exception
  http_exception : ℕ → String → Exception

pub data Result {ℓ} (E A : Type ℓ) : Type ℓ where
  ok : A → Result E A
  raise : E → Result E A

infixl 5 ◌>>=◌ ◌>>◌
abbrev pub ◌>>=◌ {ℓ} : {E A B : Type ℓ} → Result E A → (A → Result E B) → Result E B
ok a >>= f = f a
raise e >>= f = raise e

abbrev pub ◌>>◌ {ℓ} : {E A B : Type ℓ} → Result E A → Result E B → Result E B
m >> k = m >>= λ _. k

pub Result-cases {ℓ} :
    {E A : Type ℓ} (r : Result E A) → ((a : A) × (r ≡ ok a)) ⊎ ((e : E) × (r ≡ raise e))
Result-cases (ok a) = inl (a, refl)
Result-cases (raise e) = inr (e, refl)

-- A value, or the exception.
abbrev pub some_or : {A : Type 0} → Exception → Option A → Result Exception A
some_or e none = raise e
some_or e (some a) = ok a

pub bind-bind {ℓ} :
    {E A B C : Type ℓ} (m : Result E A) (f : A → Result E B) (k : B → Result E C)
    → (m >>= λ a. f a >>= k) ≡ (m >>= f >>= k)
bind-bind (ok a) f k = refl
bind-bind (raise e) f k = refl

-- What holds of the value, if there is one.
abbrev pub Always {ℓ} : {E A : Type ℓ} → (A → Type 0) → Result E A → Type 0
Always Q (ok a) = Q a
Always Q (raise e) = Unit

pub Always-bind {ℓ} :
    {E A B : Type ℓ} (Q : B → Type 0) (m : Result E A) (f : A → Result E B)
    → ((a : A) → m ≡ ok a → Always Q (f a))
    → Always Q (m >>= f)
Always-bind Q (ok a) f h = h a refl
Always-bind Q (raise e) f h = tt

pub Always-ok {ℓ} :
    {E A : Type ℓ} (Q : A → Type 0) (m : Result E A) (a : A) → m ≡ ok a → Always Q m → Q a
Always-ok Q m a e = subst (Always Q) e

pub Always-all {ℓ} :
    {E A : Type ℓ} (Q : A → Type 0) (m : Result E A) → ((a : A) → m ≡ ok a → Q a) → Always Q m
Always-all Q (ok a) h = h a refl
Always-all Q (raise e) h = tt

-- The exception, if there is one, is this one.
abbrev pub OnlyRaises : {E A : Type 0} → E → Result E A → Type 0
OnlyRaises x (ok a) = Unit
OnlyRaises x (raise e) = e ≡ x

pub OnlyRaises-bind :
    {E A B : Type 0} (x : E) (m : Result E A) (f : A → Result E B)
    → OnlyRaises x m
    → ((a : A) → OnlyRaises x (f a))
    → OnlyRaises x (m >>= f)
OnlyRaises-bind x (ok a) f h k = k a
OnlyRaises-bind x (raise e) f h k = h

pub OnlyRaises-if :
    {A : Type 0} (x : Exception) (b : Bool) (r s : Result Exception A)
    → OnlyRaises x r
    → OnlyRaises x s
    → OnlyRaises x (if b then r else s)
OnlyRaises-if x true r s h k = h
OnlyRaises-if x false r s h k = k

pub OnlyRaises-some_or : {A : Type 0} (x : Exception) (o : Option A) → OnlyRaises x (some_or x o)
OnlyRaises-some_or x none = refl
OnlyRaises-some_or x (some a) = tt
