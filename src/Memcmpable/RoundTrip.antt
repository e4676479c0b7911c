-- ===== src/Memcmpable/RoundTrip.antt =====
-- src/memcmpable.rs: `decode` undoes `encode`, and `encoded_size`.
use relly.Prelude.{
  ◌&&◌, ◌==◌, ◌%◌, take_of_length-le, is_empty-drop, ℕ, zero, suc, ◌+◌, ◌-◌, ◌*◌, ◌/◌, ◌≤◌, ◌<◌,
  min, ◌≡◌, refl, ap, ◌∙◌, [], ◌∷◌, ◌++◌, Bytes, length, is_empty, take, drop, append_assoc, done,
  ◌>>=◌, Returns, ltb, if◌then◌else◌, Bool-cases, inl, inr, true, false, get_elem?, some, arith,
  length-append, length-drop, take-append-drop,
}
use relly.Memcmpable.{encode, decode_loop, decode, encoded_size}
use relly.Memcmpable.Blocks.{padded, marker, blocks, encoding, encode-encoding, length-blocks}

-- The three reads of `decode` in a block.
get_elem?-padded :
    (n : ℕ) (src : Bytes) (m : ℕ) (t : Bytes) → get_elem? (padded n src ++ m ∷ t) n ≡ some m
unfolding padded
get_elem?-padded zero src m t = refl
get_elem?-padded (suc n) [] m t = get_elem?-padded n [] m t
get_elem?-padded (suc n) (b ∷ src) m t = get_elem?-padded n src m t

drop-padded : (n : ℕ) (src : Bytes) (m : ℕ) (t : Bytes) → drop (suc n) (padded n src ++ m ∷ t) ≡ t
unfolding padded
drop-padded zero src m t = refl
drop-padded (suc n) [] m t = drop-padded n [] m t
drop-padded (suc n) (b ∷ src) m t = drop-padded n src m t

take-padded :
    (n k : ℕ) (src t : Bytes) → k ≤ n → k ≤ length src → take k (padded n src ++ t) ≡ take k src
unfolding padded
take-padded n zero src t h l = refl
take-padded zero (suc k) src t h l = absurd (omega arith)
take-padded (suc n) (suc k) [] t h l = absurd (omega arith)
take-padded (suc n) (suc k) (b ∷ src) t h l =
    ap (◌∷◌ b) (take-padded n k src t (omega arith) (omega arith))

-- One round of `decode` on a block.
decode_loop-padded :
    (fuel : ℕ) (src t dst : Bytes) (m : ℕ)
    → min 8 m ≤ length src
    → decode_loop (suc fuel) (padded 8 src ++ m ∷ t) dst ≡ (
        if ltb m 9
        then done (t, dst ++ take (min 8 m) src)
        else decode_loop fuel t (dst ++ take (min 8 m) src))
unfolding decode_loop
decode_loop-padded fuel src t dst m h = rw (
  get_elem?-padded 8 src m t,
  drop-padded 8 src m t,
  take-padded 8 (min 8 m) src (m ∷ t) (omega arith) h,
)

decode_loop-blocks :
    (f fuel : ℕ) (src rest dst : Bytes)
    → length src < f
    → f ≤ fuel
    → decode_loop fuel (blocks f src ++ rest) dst ≡ done (rest, dst ++ src)
unfolding blocks
decode_loop-blocks zero fuel src rest dst h k = elim h [ ]
decode_loop-blocks (suc f) zero src rest dst h k = absurd (omega arith)
decode_loop-blocks (suc f) (suc fuel) src rest dst h k = elim (Bool-cases (ltb 8 (length src))) [
  | inl long ↦
      let e : is_empty (drop 8 src) ≡ false = is_empty-drop 8 src ∙ rw long in
      let m : marker src ≡ 9 = ground arith in
      rw (e, m, append_assoc)
        (decode_loop-padded fuel src (blocks f (drop 8 src) ++ rest) dst 9 (ground arith)
          ∙ decode_loop-blocks f fuel (drop 8 src) rest (dst ++ take 8 src)
              (ground (arith, length-drop 8 src)) (omega arith)
          ∙ rw (append_assoc, take-append-drop))
  | inr short ↦
      let e : is_empty (drop 8 src) ≡ true = is_empty-drop 8 src ∙ rw short in
      let m : marker src ≡ length src = ground arith in
      let n : min 8 (length src) ≡ length src = ground arith in
      let l : ltb (length src) 9 ≡ true = ground arith in
      rw (e, m, append_assoc)
        (decode_loop-padded fuel src rest dst (length src) (omega arith)
          ∙ rw (l, n, take_of_length-le (length src) src (omega arith)))
]

length-encoding :
    (src : Bytes) → length (encoding src) ≡ (if is_empty src then 9 else (length src + 7) / 8 * 9)
unfolding encoding
length-encoding src = length-blocks (suc (length src)) src (omega arith)

length-le-encoding : (src : Bytes) → length src ≤ length (encoding src)
length-le-encoding src = ground (arith, length-encoding src)

-- The bytes that `encode` appends for a source of the given length.
abbrev pub appended : ℕ → ℕ
appended len = if ltb 0 len && (len % 8 == 0) then encoded_size len - 9 else encoded_size len

length-encoding-appended : (src : Bytes) → length (encoding src) ≡ appended (length src)
unfolding encoded_size
length-encoding-appended [] = length-encoding []
length-encoding-appended (b ∷ src) = ground (arith, length-encoding (b ∷ src))

take-append : (xs ys : Bytes) → take (length xs) (xs ++ ys) ≡ xs
take-append [] ys = refl
take-append (x ∷ xs) ys = ap (◌∷◌ x) (take-append xs ys)

pub decode-encoding :
    (src rest dst : Bytes) → decode (encoding src ++ rest) dst ≡ done (rest, dst ++ src)
unfolding decode encoding
decode-encoding src rest dst =
    decode_loop-blocks (suc (length src)) (suc (length (encoding src ++ rest))) src rest dst
      (omega arith) (omega (arith, length-append (encoding src) rest, length-le-encoding src))

-- `encode` ends with a value that keeps `dst` in front and is longer by `encoded_size` of the
-- source's length, or by nine less where that length is a positive multiple of eight.
pub length-encode :
    (src dst : Bytes)
    → Returns
        (encode src dst)
        (λ out. (take (length dst) out ≡ dst) × (length out ≡ length dst + appended (length src)))
length-encode src dst = rw encode-encoding (
  take-append dst (encoding src),
  length-append dst (encoding src) ∙ ap (◌+◌ (length dst)) (length-encoding-appended src),
)

-- `decode` takes from the front of its source exactly what `encode` wrote, appends the encoded
-- bytes to `dst`, and leaves the rest of the source.
pub decode-encode :
    (src rest dst : Bytes)
    → (do out ← encode src []; decode (out ++ rest) dst) ≡ done (rest, dst ++ src)
decode-encode src rest dst = rw encode-encoding (decode-encoding src rest dst)
