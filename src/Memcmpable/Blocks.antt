-- ===== src/Memcmpable/Blocks.antt =====
-- src/memcmpable.rs: the encoding as a function of the source alone, block by block.
use relly.Prelude.{
  take_of_length-le, drop_of_length-le, is_empty-drop, ◌⊎◌, ◌/◌, ℕ, zero, suc, ◌+◌, ◌-◌, ◌*◌, ◌%◌,
  ◌≤◌, ◌<◌, min, ◌≡◌, refl, ap, ◌∙◌, [], ◌∷◌, ◌++◌, Bytes, length, is_empty, take, drop, replicate,
  append_assoc, append-nil, done, ltb, if◌then◌else◌, Bool-cases, inl, inr, true, false, arith,
  length-append, length-drop,
}
use relly.Memcmpable.{encode_loop, encode}

-- The first `n` bytes, filled up with zeros.
unfoldable pub padded : ℕ → Bytes → Bytes
padded zero src = []
padded (suc n) [] = 0 ∷ padded n []
padded (suc n) (b ∷ src) = b ∷ padded n src

-- The byte behind a block of `src`: its length if the block is the last, and else 9.
abbrev pub marker : Bytes → ℕ
marker src = min 9 (length src)

-- Blocks of eight bytes with their markers.
unfoldable pub blocks : ℕ → Bytes → Bytes
blocks zero src = []
blocks (suc fuel) src =
    let more = blocks fuel (drop 8 src) in
    padded 8 src ++ marker src ∷ (if is_empty (drop 8 src) then [] else more)

unfoldable pub encoding : Bytes → Bytes
unfolding blocks
encoding src = blocks (suc (length src)) src

pad_short :
    (n : ℕ) (src : Bytes) → length src ≤ n → src ++ replicate (n - length src) 0 ≡ padded n src
unfolding padded
pad_short zero [] h = refl
pad_short zero (b ∷ src) h = absurd (omega arith)
pad_short (suc n) [] h = ground (arith, pad_short n [])
pad_short (suc n) (b ∷ src) h = ground (arith, pad_short n src)

pad_long : (n : ℕ) (src : Bytes) → n ≤ length src → take n src ≡ padded n src
unfolding padded
pad_long zero src h = refl
pad_long (suc n) [] h = absurd (omega arith)
pad_long (suc n) (b ∷ src) h = ground (arith, pad_long n src)

encode_loop-blocks :
    (fuel : ℕ) (src dst : Bytes)
    → length src < fuel
    → encode_loop fuel src dst ≡ done (dst ++ blocks fuel src)
unfolding encode_loop blocks
encode_loop-blocks zero src dst h = elim h [ ]
encode_loop-blocks (suc fuel) src dst h = elim (Bool-cases (ltb 8 (length src))) [
  | inl long ↦
      let m : min 8 (length src) ≡ 8 = ground arith in
      let k : min 9 (length src) ≡ 9 = ground arith in
      let e : is_empty (drop 8 src) ≡ false = is_empty-drop 8 src ∙ rw long in
      rw (m, e, k, ← pad_long 8 src (ground arith))
        (rw
          (encode_loop-blocks fuel (drop 8 src) ((dst ++ take 8 src) ++ 9 ∷ [])
            (ground (arith, length-drop 8 src)))
          (simp append_assoc))
  | inr short ↦
      let le : length src ≤ 8 = ground arith in
      let m : min 8 (length src) ≡ length src = ground arith in
      let k : min 9 (length src) ≡ length src = ground arith in
      let e : is_empty (drop 8 src) ≡ true = is_empty-drop 8 src ∙ rw short in
      let d : drop (length src) src ≡ [] = drop_of_length-le (length src) src (omega arith) in
      let b : length src % 256 ≡ length src = omega arith in
      rw (m, e, k, d, b, take_of_length-le (length src) src (omega arith), ← pad_short 8 src le)
        (last (Bool-cases (ltb 0 (8 - length src))))
]
  where
    last :
        (ltb 0 (8 - length src) ≡ true) ⊎ (ltb 0 (8 - length src) ≡ false)
        → done (
            (if ltb 0 (8 - length src)
              then (dst ++ src) ++ replicate (8 - length src) 0
              else dst ++ src)
            ++ length src ∷ [])
          ≡ done (dst ++ ((src ++ replicate (8 - length src) 0) ++ length src ∷ []))
    last (inl some_pad) = rw some_pad (simp append_assoc)
    last (inr no_pad) =
        let z : 8 - length src ≡ 0 = ground arith in rw (no_pad, z, append-nil, append_assoc)

-- On fuel above the length the encoding is the same.
pub encode-encoding : (src dst : Bytes) → encode src dst ≡ done (dst ++ encoding src)
unfolding encode encoding
encode-encoding src dst = encode_loop-blocks (suc (length src)) src dst (omega arith)

pub length-padded : (n : ℕ) (src : Bytes) → length (padded n src) ≡ n
unfolding padded
length-padded zero src = refl
length-padded (suc n) [] = ap suc (length-padded n [])
length-padded (suc n) (b ∷ src) = ap suc (length-padded n src)

-- The number of blocks: one for each eight bytes begun, and one for the empty string.
pub length-blocks :
    (fuel : ℕ) (src : Bytes)
    → length src < fuel
    → length (blocks fuel src) ≡ (if is_empty src then 9 else (length src + 7) / 8 * 9)
unfolding blocks
length-blocks zero src h = elim h [ ]
length-blocks (suc fuel) [] h =
    ground (arith, length-append (padded 8 []) (0 ∷ []), length-padded 8 [])
length-blocks (suc fuel) (b ∷ src) h = ground (
  arith,
  is_empty-drop 8 (b ∷ src),
  length-drop 8 (b ∷ src),
  length-blocks fuel (drop 8 (b ∷ src)),
  length-append (padded 8 (b ∷ src)) (marker (b ∷ src) ∷ []),
  length-append (padded 8 (b ∷ src)) (marker (b ∷ src) ∷ blocks fuel (drop 8 (b ∷ src))),
  length-padded 8 (b ∷ src),
)
