-- ===== src/Tuple/RoundTrip.antt =====
-- src/tuple.rs: `decode` undoes `encode`, and ends on every input.
use relly.Prelude.{
  false, ℕ, zero, suc, ◌+◌, ◌≤◌, ◌<◌, ◌≡◌, refl, ◌∙◌, ◌≢◌, List, [], ◌∷◌, ◌++◌, append_assoc,
  append-nil, Bytes, length, is_empty, Run, done, panic, hang, ◌>>=◌, arith,
}
use relly.Memcmpable
use relly.Memcmpable.Blocks.{encoding, encode-encoding}
use relly.Memcmpable.RoundTrip.{decode-encoding}
use relly.Memcmpable.Ends.{Consumes, decode-Consumes}
use relly.Tuple.{encode, decode_loop, decode}

-- The encodings of the elements, one behind the other.
unfoldable pub encodings : List Bytes → Bytes
encodings [] = []
encodings (elem ∷ elems) = encoding elem ++ encodings elems

pub encode-encodings :
    (elems : List Bytes) (bytes : Bytes) → encode elems bytes ≡ done (bytes ++ encodings elems)
unfolding encode encodings
encode-encodings [] bytes = rw append-nil
encode-encodings (elem ∷ elems) bytes =
    rw (encode-encoding elem bytes, encode-encodings elems (bytes ++ encoding elem), append_assoc)

is_empty-eq-false : (xs : Bytes) → 0 < length xs → is_empty xs ≡ false
is_empty-eq-false [] h = elim h [ ]
is_empty-eq-false (x ∷ xs) h = refl

decode_loop-encodings :
    (fuel : ℕ) (elems out : List Bytes)
    → length (encodings elems) < fuel
    → decode_loop fuel (encodings elems) out ≡ done (out ++ elems)
unfolding decode_loop encodings
decode_loop-encodings zero elems out h = elim h [ ]
decode_loop-encodings (suc fuel) [] out h = rw append-nil
decode_loop-encodings (suc fuel) (elem ∷ elems) out h =
    let src = encoding elem ++ encodings elems in
    let e = decode-encoding elem (encodings elems) [] in
    let c : length (encodings elems) + 9 ≤ length src = rw e at (decode-Consumes src []) in
    rw (is_empty-eq-false src (omega arith), e)
      (decode_loop-encodings fuel elems (out ++ elem ∷ []) (omega arith) ∙ rw append_assoc)

-- `decode` on the encoding of a tuple ends and appends the elements of the tuple to `elems`.
pub decode-encode_tuple :
    (tuple elems : List Bytes)
    → (do bytes ← encode tuple []; decode bytes elems) ≡ done (elems ++ tuple)
unfolding decode
decode-encode_tuple tuple elems =
    rw (encode-encodings tuple [])
      (decode_loop-encodings (suc (length (encodings tuple))) tuple elems (omega arith))

decode_loop-ne-hang :
    (fuel : ℕ) (rest : Bytes) (elems : List Bytes)
    → length rest < fuel
    → decode_loop fuel rest elems ≢ hang
unfolding decode_loop
decode_loop-ne-hang zero rest elems h = elim h [ ]
decode_loop-ne-hang (suc fuel) [] elems h = λ e. cc
decode_loop-ne-hang (suc fuel) (b ∷ rest) elems h =
    go (Memcmpable.decode (b ∷ rest) []) (decode-Consumes (b ∷ rest) []) (decode_loop-ne-hang fuel)
  where
    go :
        (r : Run (Bytes × Bytes))
        → Consumes (b ∷ rest) r
        → ((rest' : Bytes) (elems' : List Bytes)
            → length rest' < fuel
            → decode_loop fuel rest' elems' ≢ hang)
        → (do (rest', elem) ← r; decode_loop fuel rest' (elems ++ elem ∷ [])) ≢ hang
    go (done (rest', elem)) c ih = ih rest' (elems ++ elem ∷ []) (omega arith)
    go panic c ih = λ e. cc
    go hang c ih = absurd c

-- `decode` ends on every byte string, with elements or with a panic.
pub decode-ne-hang : (bytes : Bytes) (elems : List Bytes) → decode bytes elems ≢ hang
unfolding decode
decode-ne-hang bytes elems = decode_loop-ne-hang (suc (length bytes)) bytes elems (omega arith)
