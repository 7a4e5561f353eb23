-- ===== src/Base/Guards.antt =====
-- Fallible steps: `none` is a failed assertion or undefined behaviour.
use mathlib.Core.Path.{◌≡◌, refl}
use mathlib.Core.Bool.{Bool, true, false}
use mathlib.Core.Logic.{◌≢◌}
use mathlib.Core.Option.{Option, none, some}

infixl 5 ◌>>=◌ ◌>>◌
abbrev pub ◌>>=◌ {ℓ κ} : {A : Type ℓ} {B : Type κ} → Option A → (A → Option B) → Option B
none >>= f = none
some a >>= f = f a

abbrev pub ◌>>◌ {ℓ} : {B : Type ℓ} → Option (Unit {0}) → Option B → Option B
m >> k = m >>= λ _. k

-- `assert(b)`
abbrev pub assert : Bool → Option (Unit {0})
assert true = some tt
assert false = none

module _ {ℓ κ} {A : Type ℓ} {B : Type κ} where
  pub bind-eq-some :
      (m : Option A) (f : A → Option B) {b : B}
      → m >>= f ≡ some b
      → (a : A) × (m ≡ some a) × (f a ≡ some b)
  bind-eq-some (some a) f h = (a, refl, h)
  bind-eq-some none f h = cc

pub some-injective {ℓ} : {A : Type ℓ} {a b : A} → some a ≡ some b → a ≡ b
some-injective e = cc

pub none≢some {ℓ} : {A : Type ℓ} {a : A} → none ≢ some a
none≢some e = absurd cc

pub true≢false : true ≢ false
true≢false e = absurd cc
