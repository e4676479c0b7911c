-- ===== src/Prelude/Slices.antt =====
-- Slices of lists, and a block written over a list, read element by element.
use Prim.Native.Nat.{ℕ, zero, suc, ◌+◌, ◌-◌, ◌<◌, ◌≤◌}
use mathlib.Core.Path.{◌≡◌, refl, sym, ap, ◌∙◌}
use mathlib.Core.List.{List, [], ◌∷◌, ◌++◌}
use mathlib.Core.Option.{none}
use mathlib.Core.Logic.{◌⊎◌, inl, inr}
use native.Mathlib.Omega.{arith}
use native.Mathlib.Nat.{add_assoc}
use relly.Prelude.Tests.{ltb, if◌then◌else◌, ltb→lt, ltb→le, Bool-cases}
use relly.Prelude.Lists.{
  length, get_elem?, take, drop, list_ext, length-take, length-drop, get_elem?_ge,
}

module _ {ℓ} {A : Type ℓ} where
  -- `ys` written over `xs` from position `i` on; what would pass the end is lost.
  unfoldable pub overwrite : List A → ℕ → List A → List A
  overwrite [] i ys = []
  overwrite (x ∷ xs) zero [] = x ∷ xs
  overwrite (x ∷ xs) zero (y ∷ ys) = y ∷ overwrite xs zero ys
  overwrite (x ∷ xs) (suc i) ys = x ∷ overwrite xs i ys

module _ {ℓ} {A : Type ℓ} where
  pub get_elem?-take :
      (n i : ℕ) (xs : List A) → get_elem? (take n xs) i ≡ (if ltb i n then get_elem? xs i else none)
  get_elem?-take zero i xs = ground arith
  get_elem?-take (suc n) i [] = ground arith
  get_elem?-take (suc n) zero (x ∷ xs) = ground arith
  get_elem?-take (suc n) (suc i) (x ∷ xs) = ground (arith, get_elem?-take n i xs)

  pub get_elem?-drop : (n i : ℕ) (xs : List A) → get_elem? (drop n xs) i ≡ get_elem? xs (n + i)
  get_elem?-drop zero i xs = ground arith
  get_elem?-drop (suc n) i [] = refl
  get_elem?-drop (suc n) i (x ∷ xs) = ground (arith, get_elem?-drop n i xs)

  pub get_elem?-append :
      (xs ys : List A) (i : ℕ)
      → get_elem? (xs ++ ys) i
        ≡ (if ltb i (length xs) then get_elem? xs i else get_elem? ys (i - length xs))
  get_elem?-append [] ys i = ground arith
  get_elem?-append (x ∷ xs) ys zero = ground arith
  get_elem?-append (x ∷ xs) ys (suc i) = ground (arith, get_elem?-append xs ys i)

  pub length-overwrite :
      (xs : List A) (i : ℕ) (ys : List A) → length (overwrite xs i ys) ≡ length xs
  unfolding overwrite
  length-overwrite [] i ys = refl
  length-overwrite (x ∷ xs) zero [] = refl
  length-overwrite (x ∷ xs) zero (y ∷ ys) = ap suc (length-overwrite xs zero ys)
  length-overwrite (x ∷ xs) (suc i) ys = ap suc (length-overwrite xs i ys)

  pub get_elem?-overwrite_before :
      (xs : List A) (i : ℕ) (ys : List A) (j : ℕ)
      → j < i
      → get_elem? (overwrite xs i ys) j ≡ get_elem? xs j
  unfolding overwrite
  get_elem?-overwrite_before [] i ys j h = refl
  get_elem?-overwrite_before (x ∷ xs) zero ys j h = absurd (omega arith)
  get_elem?-overwrite_before (x ∷ xs) (suc i) ys zero h = refl
  get_elem?-overwrite_before (x ∷ xs) (suc i) ys (suc j) h =
      get_elem?-overwrite_before xs i ys j (omega arith)

  pub get_elem?-overwrite_after :
      (xs : List A) (i : ℕ) (ys : List A) (j : ℕ)
      → i + length ys ≤ j
      → get_elem? (overwrite xs i ys) j ≡ get_elem? xs j
  unfolding overwrite
  get_elem?-overwrite_after [] i ys j h = refl
  get_elem?-overwrite_after (x ∷ xs) zero [] j h = refl
  get_elem?-overwrite_after (x ∷ xs) zero (y ∷ ys) zero h = absurd (omega arith)
  get_elem?-overwrite_after (x ∷ xs) zero (y ∷ ys) (suc j) h =
      get_elem?-overwrite_after xs zero ys j (omega arith)
  get_elem?-overwrite_after (x ∷ xs) (suc i) ys zero h = absurd (omega arith)
  get_elem?-overwrite_after (x ∷ xs) (suc i) ys (suc j) h =
      get_elem?-overwrite_after xs i ys j (omega arith)

  pub get_elem?-overwrite_inside :
      (xs : List A) (i : ℕ) (ys : List A) (j : ℕ)
      → j < length ys
      → i + length ys ≤ length xs
      → get_elem? (overwrite xs i ys) (i + j) ≡ get_elem? ys j
  unfolding overwrite
  get_elem?-overwrite_inside [] i ys j h k = absurd (omega arith)
  get_elem?-overwrite_inside (x ∷ xs) zero [] j h k = absurd (omega arith)
  get_elem?-overwrite_inside (x ∷ xs) zero (y ∷ ys) zero h k = ground arith
  get_elem?-overwrite_inside (x ∷ xs) zero (y ∷ ys) (suc j) h k =
      ground (arith, get_elem?-overwrite_inside xs zero ys j)
  get_elem?-overwrite_inside (x ∷ xs) (suc i) ys j h k =
      ground (arith, get_elem?-overwrite_inside xs i ys j)

module _ {ℓ} {A : Type ℓ} where
  -- `xs[o..o + n]`, shorter where `xs` ends before.
  abbrev pub slice : ℕ → ℕ → List A → List A
  slice o n xs = take n (drop o xs)

  pub get_elem?-slice :
      (o n i : ℕ) (xs : List A)
      → get_elem? (slice o n xs) i ≡ (if ltb i n then get_elem? xs (o + i) else none)
  get_elem?-slice o n i xs = ground (arith, get_elem?-take n i (drop o xs), get_elem?-drop o i xs)

  pub length-slice : (o n : ℕ) (xs : List A) → o + n ≤ length xs → length (slice o n xs) ≡ n
  length-slice o n xs h = omega (arith, length-take n (drop o xs), length-drop o xs)

  -- The block that was written is read back.
  pub slice-overwrite_self :
      (o : ℕ) (xs ys : List A)
      → o + length ys ≤ length xs
      → slice o (length ys) (overwrite xs o ys) ≡ ys
  slice-overwrite_self o xs ys h = list_ext (slice o (length ys) (overwrite xs o ys)) ys λ i.
      get_elem?-slice o (length ys) i (overwrite xs o ys) ∙ elim (Bool-cases (ltb i (length ys))) [
        | inl inside ↦ rw inside (get_elem?-overwrite_inside xs o ys i (ltb→lt _ _ inside) h)
        | inr beyond ↦ rw beyond (sym (get_elem?_ge ys i (ltb→le _ _ beyond)))
      ]

  -- A slice beside the block is as before.
  pub slice-overwrite_ne :
      (o n i : ℕ) (xs ys : List A)
      → (o + n ≤ i) ⊎ (i + length ys ≤ o)
      → slice o n (overwrite xs i ys) ≡ slice o n xs
  slice-overwrite_ne o n i xs ys h = list_ext (slice o n (overwrite xs i ys)) (slice o n xs) λ j.
      ground (
        arith,
        get_elem?-slice o n j (overwrite xs i ys),
        get_elem?-slice o n j xs,
        get_elem?-overwrite_before xs i ys (o + j),
        get_elem?-overwrite_after xs i ys (o + j),
      )

  -- What is appended does not show in a slice of what was there.
  pub slice-append :
      (o n : ℕ) (xs ys : List A) → o + n ≤ length xs → slice o n (xs ++ ys) ≡ slice o n xs
  slice-append o n xs ys h = list_ext (slice o n (xs ++ ys)) (slice o n xs) λ j. ground (
    arith,
    get_elem?-slice o n j (xs ++ ys),
    get_elem?-slice o n j xs,
    get_elem?-append xs ys (o + j),
  )

  -- A slice inside the block, at a position `at` of the list.
  pub slice-overwrite_inside :
      (o k n at : ℕ) (xs ys : List A)
      → at ≡ o + k
      → o + length ys ≤ length xs
      → k + n ≤ length ys
      → slice at n (overwrite xs o ys) ≡ slice k n ys
  slice-overwrite_inside o k n at xs ys e h i =
      list_ext (slice at n (overwrite xs o ys)) (slice k n ys) λ j. ground (
        arith,
        get_elem?-slice at n j (overwrite xs o ys),
        get_elem?-slice k n j ys,
        get_elem?-overwrite_inside xs o ys (k + j),
        add_assoc o k j,
      )

  pub slice-slice :
      (o m k n at : ℕ) (xs : List A)
      → at ≡ o + k
      → k + n ≤ m
      → slice k n (slice o m xs) ≡ slice at n xs
  slice-slice o m k n at xs e h = list_ext (slice k n (slice o m xs)) (slice at n xs) λ j. ground (
    arith,
    get_elem?-slice k n j (slice o m xs),
    get_elem?-slice o m (k + j) xs,
    get_elem?-slice at n j xs,
    add_assoc o k j,
  )
