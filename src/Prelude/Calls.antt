-- ===== src/Prelude/Calls.antt =====
-- What a C++ call comes to: a value, an exception, or undefined behaviour.
use mathlib.Core.Path.{◌≡◌, refl}
use mathlib.Core.Bool.{Bool, true, false}
use mathlib.Core.Option.{Option, none, some}

-- The classes of include/arc/exception that the runtime throws; their texts are left out.
pub data Exception : Type 0 where
  io_exception exception_base address_exception tls_exception runtime_error logic_error
        bad_function_call :
      Exception

pub data Outcome {ℓ} (A : Type ℓ) : Type ℓ where
  ok : A → Outcome A
  throws : Exception → Outcome A
  undefined : Outcome A

infixl 5 ◌>>=◌ ◌>>◌
abbrev pub ◌>>=◌ {ℓ κ} : {A : Type ℓ} {B : Type κ} → Outcome A → (A → Outcome B) → Outcome B
undefined >>= next = undefined
throws e >>= next = throws e
ok a >>= next = next a

abbrev pub ◌>>◌ {ℓ} : {B : Type ℓ} → Outcome (Unit {0}) → Outcome B → Outcome B
first >> second = first >>= λ done. second

-- `if (!test) throw e;`
abbrev pub require : Bool → Exception → Outcome (Unit {0})
require true e = ok tt
require false e = throws e

-- A read that the language defines only where there is something to read.
abbrev pub defined {ℓ} : {A : Type ℓ} → Option A → Outcome A
defined none = undefined
defined (some a) = ok a

-- Inversion of a successful chain.
pub >>=-eq-ok {ℓ κ} :
    {A : Type ℓ} {B : Type κ} (first : Outcome A) (next : A → Outcome B) {r : B}
    → (first >>= next) ≡ ok r
    → (a : A) × (first ≡ ok a) × (next a ≡ ok r)
>>=-eq-ok undefined next h = cc
>>=-eq-ok (throws e) next h = cc
>>=-eq-ok (ok a) next h = (a, refl, h)

-- What follows a check that passed.
pub require-eq-ok {ℓ} :
    {A : Type ℓ} (b : Bool) (e : Exception) (m : Outcome A) {r : A}
    → (require b e >> m) ≡ ok r
    → m ≡ ok r
require-eq-ok true e m h = h
require-eq-ok false e m h = cc
