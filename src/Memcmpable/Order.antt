-- ===== src/Memcmpable/Order.antt =====
-- src/memcmpable.rs: the order of the encodings is the order of the strings.
use relly.Prelude.{
  is_empty-drop, ℕ, zero, suc, ◌+◌, ◌<◌, min, ◌≡◌, refl, sym, ap, [], ◌∷◌, ◌++◌, Bytes, length,
  is_empty, drop, append_assoc, if◌then◌else◌, false, compare, Ordering, arith, length-drop, done,
  ◌>>=◌,
}
use relly.Prelude.Cmp.{then_with, cmp}
use relly.Memcmpable.{encode}
use relly.Memcmpable.Blocks.{padded, marker, blocks, encoding, encode-encoding}

compare_self : (x : ℕ) → compare x x ≡ Ordering.eq
compare_self x = ground arith

compare-lt : (x y : ℕ) → x < y → compare x y ≡ Ordering.lt
compare-lt x y h = ground arith

compare-gt : (x y : ℕ) → y < x → compare x y ≡ Ordering.gt
compare-gt x y h = ground arith

-- Padding alone against a block: the marker decides, if no byte does.
cmp-padded-nil_lt :
    (n i j : ℕ) (b A B : Bytes)
    → i < j
    → cmp (padded n [] ++ i ∷ A) (padded n b ++ j ∷ B) ≡ Ordering.lt
unfolding padded cmp
cmp-padded-nil_lt zero i j b A B h = rw (compare-lt i j h)
cmp-padded-nil_lt (suc n) i j [] A B h = cmp-padded-nil_lt n i j [] A B h
cmp-padded-nil_lt (suc n) i j (zero ∷ b) A B h = cmp-padded-nil_lt n i j b A B h
cmp-padded-nil_lt (suc n) i j (suc y ∷ b) A B h = rw (compare-lt 0 (suc y) (omega arith))

cmp-padded-nil_gt :
    (n i j : ℕ) (a A B : Bytes)
    → j < i
    → cmp (padded n a ++ i ∷ A) (padded n [] ++ j ∷ B) ≡ Ordering.gt
unfolding padded cmp
cmp-padded-nil_gt zero i j b A B h = rw (compare-gt i j h)
cmp-padded-nil_gt (suc n) i j [] A B h = cmp-padded-nil_gt n i j [] A B h
cmp-padded-nil_gt (suc n) i j (zero ∷ b) A B h = cmp-padded-nil_gt n i j b A B h
cmp-padded-nil_gt (suc n) i j (suc y ∷ b) A B h = rw (compare-gt (suc y) 0 (omega arith))

cmp-padded-nil :
    (n i : ℕ) (A B : Bytes) → cmp (padded n [] ++ i ∷ A) (padded n [] ++ i ∷ B) ≡ cmp A B
unfolding padded cmp
cmp-padded-nil zero i A B = rw (compare_self i)
cmp-padded-nil (suc n) i A B = cmp-padded-nil n i A B

pub then_with_assoc : (o p q : Ordering) → then_with (then_with o p) q ≡ then_with o (then_with p q)
then_with_assoc Ordering.lt p q = refl
then_with_assoc Ordering.eq p q = refl
then_with_assoc Ordering.gt p q = refl

-- Both blocks reach the end of their strings, or neither does, or the longer string is greater.
abbrev split : Bytes → Bytes → Ordering → Ordering
split [] [] t = t
split [] (y ∷ b) t = Ordering.lt
split (x ∷ a) [] t = Ordering.gt
split (x ∷ a) (y ∷ b) t = t

-- The marker of what is left behind `k` bytes, in a block with room for `n` more.
abbrev mark : ℕ → ℕ → Bytes → ℕ
mark n k src = min (suc (k + n)) (k + length src)

cmp-padded :
    (n k : ℕ) (a b A B : Bytes) (o : Ordering)
    → split (drop n a) (drop n b) (cmp A B) ≡ then_with (cmp (drop n a) (drop n b)) o
    → cmp (padded n a ++ mark n k a ∷ A) (padded n b ++ mark n k b ∷ B) ≡ then_with (cmp a b) o
unfolding padded cmp
cmp-padded zero k [] [] A B o h = rw compare_self h
cmp-padded zero k [] (y ∷ b) A B o h =
    rw (compare-lt (mark 0 k []) (mark 0 k (y ∷ b)) (omega arith))
cmp-padded zero k (x ∷ a) [] A B o h =
    rw (compare-gt (mark 0 k (x ∷ a)) (mark 0 k []) (omega arith))
cmp-padded zero k (x ∷ a) (y ∷ b) A B o h =
    let m : mark 0 k (x ∷ a) ≡ suc k = omega arith in
    let m' : mark 0 k (y ∷ b) ≡ suc k = omega arith in rw (m, m', compare_self (suc k)) h
cmp-padded (suc n) k [] [] A B o h = rw (cmp-padded-nil n (mark (suc n) k []) A B) h
cmp-padded (suc n) k [] (y ∷ b) A B o h =
    cmp-padded-nil_lt (suc n) (mark (suc n) k []) (mark (suc n) k (y ∷ b)) (y ∷ b) A B (omega arith)
cmp-padded (suc n) k (x ∷ a) [] A B o h =
    cmp-padded-nil_gt (suc n) (mark (suc n) k (x ∷ a)) (mark (suc n) k []) (x ∷ a) A B (omega arith)
cmp-padded (suc n) k (x ∷ a) (y ∷ b) A B o h =
    let m : mark (suc n) k (x ∷ a) ≡ mark n (suc k) a = omega arith in
    let m' : mark (suc n) k (y ∷ b) ≡ mark n (suc k) b = omega arith in
    rw (m, m', cmp-padded n (suc k) a b A B o h) (sym (then_with_assoc (compare x y) (cmp a b) o))

-- What follows the first blocks, for what is left of the two strings.
cmp_tails :
    (a b A B r s : Bytes)
    → (is_empty a ≡ false
        → is_empty b ≡ false
        → cmp (A ++ r) (B ++ s) ≡ then_with (cmp a b) (cmp r s))
    → split a b (cmp ((if is_empty a then [] else A) ++ r) ((if is_empty b then [] else B) ++ s))
      ≡ then_with (cmp a b) (cmp r s)
unfolding cmp
cmp_tails [] [] A B r s h = refl
cmp_tails [] (y ∷ b) A B r s h = refl
cmp_tails (x ∷ a) [] A B r s h = refl
cmp_tails (x ∷ a) (y ∷ b) A B r s h = h refl refl

cmp-blocks :
    (f g : ℕ) (a b r s : Bytes)
    → length a < f
    → length b < g
    → cmp (blocks f a ++ r) (blocks g b ++ s) ≡ then_with (cmp a b) (cmp r s)
unfolding blocks
cmp-blocks zero g a b r s h k = elim h [ ]
cmp-blocks (suc f) zero a b r s h k = elim k [ ]
cmp-blocks (suc f) (suc g) a b r s h k =
    let m : marker a ≡ mark 8 0 a = omega arith in
    let m' : marker b ≡ mark 8 0 b = omega arith in
    simp append_assoc (
      rw (m, m')
        (cmp-padded 8 0 a b _ _ (cmp r s) (
          cmp_tails (drop 8 a) (drop 8 b) (blocks f (drop 8 a)) (blocks g (drop 8 b)) r s (λ p q.
            cmp-blocks f g (drop 8 a) (drop 8 b) r s
              (ground (arith, is_empty-drop 8 a, length-drop 8 a))
              (ground (arith, is_empty-drop 8 b, length-drop 8 b))))))

pub cmp-encoding :
    (a b r s : Bytes) → cmp (encoding a ++ r) (encoding b ++ s) ≡ then_with (cmp a b) (cmp r s)
unfolding encoding
cmp-encoding a b r s =
    cmp-blocks (suc (length a)) (suc (length b)) a b r s (omega arith) (omega arith)

-- An encoding is never empty.
pub cmp-nil-encoding : (b s : Bytes) → cmp [] (encoding b ++ s) ≡ Ordering.lt
unfolding cmp encoding blocks padded
cmp-nil-encoding [] s = refl
cmp-nil-encoding (y ∷ b) s = refl

pub cmp-encoding-nil : (a r : Bytes) → cmp (encoding a ++ r) [] ≡ Ordering.gt
unfolding cmp encoding blocks padded
cmp-encoding-nil [] r = refl
cmp-encoding-nil (x ∷ a) r = refl

-- Two encodings, whatever follows each, compare as the encoded strings do, and where these are
-- equal as what follows does.
pub cmp-encode :
    (a b r s : Bytes)
    → (do x ← encode a []; y ← encode b []; done (cmp (x ++ r) (y ++ s)))
      ≡ done (then_with (cmp a b) (cmp r s))
cmp-encode a b r s =
    rw (encode-encoding a [], encode-encoding b []) (ap done (cmp-encoding a b r s))
