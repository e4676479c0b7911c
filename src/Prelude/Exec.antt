-- ===== src/Prelude/Exec.antt =====
-- Methods on `&mut self` that return a `Result`: the state comes back beside an error too.
use mathlib.Core.Option.{Option, none, some}
use mathlib.Core.Path.{◌≡◌, refl}
use relly.Prelude.Outcome.{Run, done, panic, hang}

pub data Result {ℓ} (E A : Type ℓ) : Type ℓ where
  ok : A → Result E A
  err : E → Result E A

abbrev pub Exec {ℓ} : Type ℓ → Type ℓ → Type ℓ → Type ℓ
Exec S E A = S → Run (Result E A × S)

module _ {ℓ} {S E A : Type ℓ} where
  abbrev pub pure : A → Exec S E A
  pure a s = done (ok a, s)

  abbrev pub raise : E → Exec S E A
  raise e s = done (err e, s)

  -- `option.ok_or(e)?`
  abbrev pub ok_or : Option A → E → Exec S E A
  ok_or none e = raise e
  ok_or (some a) e = pure a

  -- Code that reads or writes no state and may panic.
  abbrev pub lift : Run A → Exec S E A
  lift (done a) s = done (ok a, s)
  lift panic s = panic
  lift hang s = hang

module _ {ℓ} {S E A B : Type ℓ} where
  -- `?` on a result.
  abbrev pub continue : Run (Result E A × S) → (A → Exec S E B) → Run (Result E B × S)
  continue (done (ok a, s)) f = f a s
  continue (done (err e, s)) f = done (err e, s)
  continue panic f = panic
  continue hang f = hang

  infixl 5 ◌>>=◌
  abbrev pub ◌>>=◌ : Exec S E A → (A → Exec S E B) → Exec S E B
  ◌>>=◌ m f s = continue (m s) f

  -- Inversion of a bind that ends with a value.
  pub continue-eq-ok :
      (r : Run (Result E A × S)) (f : A → Exec S E B) {b : B} {s' : S}
      → continue r f ≡ done (ok b, s')
      → (a : A) × (s : S) × (r ≡ done (ok a, s)) × (f a s ≡ done (ok b, s'))
  continue-eq-ok (done (ok a, s)) f h = (a, s, refl, h)
  continue-eq-ok (done (err e, s)) f h = absurd cc
  continue-eq-ok panic f h = absurd cc
  continue-eq-ok hang f h = absurd cc

infixl 5 ◌>>◌
abbrev pub ◌>>◌ : {S E B : Type 0} → Exec S E (Unit {0}) → Exec S E B → Exec S E B
m >> k = m >>= λ _. k
