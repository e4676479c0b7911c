-- ===== src/Prelude/Order.antt =====
-- The laws of `cmp` on byte slices.
use Prim.Native.Nat.{ℕ, Ordering}
use mathlib.Core.Path.{◌≡◌, refl}
use mathlib.Core.List.{List, [], ◌∷◌}
use native.Mathlib.Omega.{arith}
use relly.Prelude.Cmp.{cmp}

pub cmp-eq : (a b : List ℕ) → cmp a b ≡ Ordering.eq → a ≡ b
unfolding cmp
cmp-eq [] [] h = refl
cmp-eq [] (y ∷ ys) h = cc
cmp-eq (x ∷ xs) [] h = cc
cmp-eq (x ∷ xs) (y ∷ ys) h = ground (arith, cmp-eq xs ys)

pub cmp-lt_trans :
    (a b c : List ℕ) → cmp a b ≡ Ordering.lt → cmp b c ≡ Ordering.lt → cmp a c ≡ Ordering.lt
unfolding cmp
cmp-lt_trans [] [] c h k = cc
cmp-lt_trans [] (y ∷ ys) [] h k = cc
cmp-lt_trans [] (y ∷ ys) (z ∷ zs) h k = refl
cmp-lt_trans (x ∷ xs) [] c h k = cc
cmp-lt_trans (x ∷ xs) (y ∷ ys) [] h k = cc
cmp-lt_trans (x ∷ xs) (y ∷ ys) (z ∷ zs) h k = ground (arith, cmp-lt_trans xs ys zs)

pub cmp-flip : (a b : List ℕ) → cmp a b ≡ Ordering.gt → cmp b a ≡ Ordering.lt
unfolding cmp
cmp-flip [] [] h = cc
cmp-flip [] (y ∷ ys) h = cc
cmp-flip (x ∷ xs) [] h = refl
cmp-flip (x ∷ xs) (y ∷ ys) h = ground (arith, cmp-flip xs ys)

pub cmp-flip_lt : (a b : List ℕ) → cmp a b ≡ Ordering.lt → cmp b a ≡ Ordering.gt
unfolding cmp
cmp-flip_lt [] [] h = cc
cmp-flip_lt [] (y ∷ ys) h = refl
cmp-flip_lt (x ∷ xs) [] h = cc
cmp-flip_lt (x ∷ xs) (y ∷ ys) h = ground (arith, cmp-flip_lt xs ys)
