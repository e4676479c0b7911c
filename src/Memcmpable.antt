-- ===== src/Memcmpable.antt =====
-- src/memcmpable.rs: byte strings in blocks of nine, so that `memcmp` on the encodings is the order
-- of the strings. A `dst` that grows is returned; the `src` that `decode` advances is returned too.
pub mod Blocks
pub mod RoundTrip
pub mod Order
pub mod Ends
mod Tests
use relly.Prelude.{
  ℕ, zero, suc, ◌+◌, ◌-◌, ◌*◌, ◌/◌, ◌%◌, min, List, [], ◌∷◌, ◌++◌, Bytes, length, is_empty, take,
  drop, replicate, Run, done, hang, ◌>>=◌, index, ltb, if◌then◌else◌,
}

abbrev pub escape_length : ℕ
escape_length = 9

unfoldable pub encoded_size : ℕ → ℕ
encoded_size len = (len + (escape_length - 1)) / (escape_length - 1) * escape_length

-- The `loop` of `encode` on fuel. The slices at `copy_len` are in range, as `copy_len` is a minimum.
unfoldable pub encode_loop : ℕ → Bytes → Bytes → Run Bytes
encode_loop zero src dst = hang
encode_loop (suc fuel) src dst =
    let copy_len = min (escape_length - 1) (length src) in
    let copied = dst ++ take copy_len src in
    let rest = drop copy_len src in
    let pad_size = escape_length - 1 - copy_len in
    let padded = (if ltb 0 pad_size then copied ++ replicate pad_size 0 else copied) in
    let more = encode_loop fuel rest (copied ++ escape_length ∷ []) in
    if is_empty rest then done (padded ++ (copy_len % 256) ∷ []) else more

-- Each round but the last copies eight bytes.
unfoldable pub encode : Bytes → Bytes → Run Bytes
unfolding encode_loop
encode src dst = encode_loop (suc (length src)) src dst

-- The `loop` of `decode` on fuel. Only `src[ESCAPE_LENGTH - 1]` can be out of range: where it is
-- not, the slices at `len` and at `ESCAPE_LENGTH` are in range.
unfoldable pub decode_loop : ℕ → Bytes → Bytes → Run (Bytes × Bytes)
decode_loop zero src dst = hang
decode_loop (suc fuel) src dst = do
  extra ← index src (escape_length - 1)
  let len = min (escape_length - 1) extra
  let copied = dst ++ take len src
  let rest = drop escape_length src
  let more = decode_loop fuel rest copied
  if ltb extra escape_length then done (rest, copied) else more

-- Each round consumes nine bytes.
unfoldable pub decode : Bytes → Bytes → Run (Bytes × Bytes)
unfolding decode_loop
decode src dst = decode_loop (suc (length src)) src dst
