-- ===== src/Tuple.antt =====
-- src/tuple.rs: tuples of byte strings as one byte string. `reserve` changes no content.
pub mod RoundTrip
pub mod Order
mod Tests
use relly.Prelude.{
  ℕ, zero, suc, List, [], ◌∷◌, ◌++◌, Bytes, length, is_empty, Run, done, hang, ◌>>=◌, if◌then◌else◌,
}
use relly.Memcmpable

unfoldable pub encode : List Bytes → Bytes → Run Bytes
encode [] bytes = done bytes
encode (elem ∷ elems) bytes = do bytes' ← Memcmpable.encode elem bytes; encode elems bytes'

-- The `while` loop of `decode` on fuel.
unfoldable pub decode_loop : ℕ → Bytes → List Bytes → Run (List Bytes)
decode_loop zero rest elems = hang
decode_loop (suc fuel) rest elems =
    let round = (do
      (rest', elem) ← Memcmpable.decode rest []
      decode_loop fuel rest' (elems ++ elem ∷ [])) in
    if is_empty rest then done elems else round

-- Each round consumes at least nine bytes.
unfoldable pub decode : Bytes → List Bytes → Run (List Bytes)
unfolding decode_loop
decode bytes elems = decode_loop (suc (length bytes)) bytes elems
