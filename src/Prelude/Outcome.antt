-- ===== src/Prelude/Outcome.antt =====
-- The outcome of running Rust code: a value, a panic, or no result within the fuel given.
use Prim.Native.Nat.{ℕ}
use mathlib.Core.Path.{◌≡◌, refl}
use mathlib.Core.Logic.{◌≢◌}
use mathlib.Core.Bool.{Bool, true, false}
use mathlib.Core.List.{List}
use mathlib.Core.Option.{Option, none, some}
use relly.Prelude.Lists.{get_elem?}

pub data Run {ℓ} (A : Type ℓ) : Type ℓ where
  panic : Run A
  hang : Run A
  done : A → Run A

infixl 5 ◌>>=◌ ◌>>◌
abbrev pub ◌>>=◌ {ℓ κ} : {A : Type ℓ} {B : Type κ} → Run A → (A → Run B) → Run B
done a >>= f = f a
panic >>= f = panic
hang >>= f = hang

abbrev pub ◌>>◌ {ℓ} : {B : Type ℓ} → Run (Unit {0}) → Run B → Run B
m >> k = m >>= λ _. k

-- `assert!(b)`
abbrev pub assert : Bool → Run (Unit {0})
assert true = done tt
assert false = panic

-- `unwrap` and `expect`
abbrev pub unwrap {ℓ} : {A : Type ℓ} → Option A → Run A
unwrap none = panic
unwrap (some a) = done a

-- `xs[i]`
abbrev pub index {ℓ} : {A : Type ℓ} → List A → ℕ → Run A
index xs i = unwrap (get_elem? xs i)

-- The run ends with a value that satisfies `Q`.
abbrev pub Returns {ℓ} : {A : Type ℓ} → Run A → (A → Type 0) → Type 0
Returns panic Q = ⊥
Returns hang Q = ⊥
Returns (done a) Q = Q a

-- Inversion of a bind that ends with a value.
pub >>=-eq-done {ℓ κ} :
    {A : Type ℓ} {B : Type κ} (m : Run A) (f : A → Run B) {b : B}
    → (m >>= f) ≡ done b
    → (a : A) × (m ≡ done a) × (f a ≡ done b)
>>=-eq-done (done a) f h = (a, refl, h)
>>=-eq-done panic f h = cc
>>=-eq-done hang f h = cc

-- The value of a run that ends with one.
pub Returns-value {ℓ} :
    {A : Type ℓ} {Q : A → Type 0} (r : Run A) → Returns r Q → (a : A) × (r ≡ done a) × Q a
Returns-value (done a) h = (a, refl, h)
Returns-value panic h = absurd h
Returns-value hang h = absurd h

-- A bind has enough fuel where both its parts do.
pub >>=-ne-hang {ℓ κ} :
    {A : Type ℓ} {B : Type κ} (m : Run A) (f : A → Run B)
    → m ≢ hang
    → ((a : A) → m ≡ done a → f a ≢ hang)
    → (m >>= f) ≢ hang
>>=-ne-hang (done a) f h k = k a refl
>>=-ne-hang panic f h k = λ e. cc
>>=-ne-hang hang f h k = absurd (h refl)
