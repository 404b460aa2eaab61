-- ===== src/Prelude/Except.antt =====
-- A call that returns a value or throws a problem of the component's own.
use mathlib.Core.Path.{◌≡◌, refl}
use mathlib.Core.Bool.{Bool, true, false}

pub data Except (E : Type 0) (A : Type 0) : Type 0 where
  return : A → Except E A
  throw : E → Except E A

-- What follows a call runs only if the call returned.
infixl 5 ◌>>=◌ ◌>>◌
abbrev pub ◌>>=◌ : {E A B : Type 0} → Except E A → (A → Except E B) → Except E B
return a >>= f = f a
throw e >>= f = throw e

abbrev pub ◌>>◌ : {E B : Type 0} → Except E (Unit {0}) → Except E B → Except E B
m >> k = m >>= λ _. k

-- `if (!test) throw problem`
abbrev pub unless_throw : {E : Type 0} → Bool → E → Except E (Unit {0})
unless_throw true e = return tt
unless_throw false e = throw e

pub return-injective : {E A : Type 0} {a b : A} → ◌≡◌ {A = Except E A} (return a) (return b) → a ≡ b
return-injective e = cc

-- The parts of a chain of calls that returned.
pub >>=-eq-return :
    {E A B : Type 0} (m : Except E A) (f : A → Except E B) {b : B}
    → (m >>= f) ≡ return b
    → (a : A) × (m ≡ return a) × (f a ≡ return b)
>>=-eq-return (return a) f e = (a, refl, e)
>>=-eq-return (throw p) f e = cc
