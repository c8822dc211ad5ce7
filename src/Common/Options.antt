-- ===== src/Common/Options.antt =====
-- `Option` as the monad of code that may panic or read out of bounds: `none` is that fault.
use mathlib.Core.Path.{◌≡◌, refl}
use mathlib.Core.Option.{Option, none, some}

infixl 5 ◌>>=◌
abbrev pub ◌>>=◌ {ℓ κ} : {A : Type ℓ} {B : Type κ} → Option A → (A → Option B) → Option B
none >>= f = none
some a >>= f = f a

-- The code returns, and its value satisfies `P`.
pub record Returns {ℓ κ} {A : Type ℓ} (P : A → Type κ) (m : Option A) : Type (ℓ ⊔ κ) where
  pub value : A
  pub runs : m ≡ some value
  pub holds : P value

module _ {ℓ κ μ ν} {A : Type ℓ} {B : Type κ} {P : A → Type μ} {Q : B → Type ν} where
  pub Returns-bind :
      {m : Option A} {f : A → Option B}
      → Returns P m
      → ((a : A) → P a → Returns Q (f a))
      → Returns Q (m >>= f)
  Returns-bind {m} {f} r k =
      let next : Returns Q (f r.value) = k r.value r.holds in
      record { value = next.value; runs = rw r.runs next.runs; holds = next.holds }

pub Returns-some {ℓ κ} : {A : Type ℓ} {P : A → Type κ} {a : A} → P a → Returns P (some a)
Returns-some {a} h = record { value = a; runs = refl; holds = h }
