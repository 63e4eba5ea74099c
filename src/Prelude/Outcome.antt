-- ===== src/Prelude/Outcome.antt =====
-- What a piece of C code comes to: a value, a failed assertion, or undefined behaviour.
use mathlib.Core.Path.{◌≡◌, refl}
use mathlib.Core.Bool.{Bool, true, false}

pub data Run {ℓ} (A : Type ℓ) : Type ℓ where
  done : A → Run A
  abort : Run A
  undefined : Run A

infixl 5 ◌>>=◌ ◌>>◌
abbrev pub ◌>>=◌ {ℓ κ} : {A : Type ℓ} {B : Type κ} → Run A → (A → Run B) → Run B
done a >>= f = f a
abort >>= f = abort
undefined >>= f = undefined

abbrev pub ◌>>◌ {ℓ} : {B : Type ℓ} → Run (Unit {0}) → Run B → Run B
m >> k = m >>= λ _. k

-- The C macro `assert`.
abbrev pub assert : Bool → Run (Unit {0})
assert true = done tt
assert false = abort

-- The access is defined only where the test holds.
abbrev pub defined_if : Bool → Run (Unit {0})
defined_if true = done tt
defined_if false = undefined

-- The code ends with a value, of which `P` holds.
abbrev pub Returns {ℓ κ} : {A : Type ℓ} → Run A → (A → Type κ) → Type (ℓ ⊔ κ)
Returns {A} r P = (a : A) × (r ≡ done a) × P a

-- Inversion of a bind that ends with a value.
pub >>=-eq-done {ℓ κ} :
    {A : Type ℓ} {B : Type κ} (m : Run A) (f : A → Run B) {b : B}
    → (m >>= f) ≡ done b
    → (a : A) × (m ≡ done a) × (f a ≡ done b)
>>=-eq-done (done a) f h = (a, refl, h)
>>=-eq-done abort f h = cc
>>=-eq-done undefined f h = cc

pub done_injective {ℓ} : {A : Type ℓ} {x y : A} → ◌≡◌ {A = Run A} (done x) (done y) → x ≡ y
done_injective h = cc
