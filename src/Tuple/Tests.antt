-- ===== src/Tuple/Tests.antt =====
-- src/tuple.rs: a run, and the theorems at an input.
use relly.Prelude.{◌≡◌, ◌≢◌, refl, List, [], ◌∷◌, ◌++◌, Bytes, done, panic, hang, ◌>>=◌}
use relly.Prelude.Cmp.{cmp}
use relly.Memcmpable
use relly.Tuple.{encode, decode}
use relly.Tuple.RoundTrip.{decode-encode_tuple, decode-ne-hang}
use relly.Tuple.Order.{cmp_tuple, cmp-encode_tuple}

abbrev alice : List Bytes
alice = (b'z' ∷ []) ∷ (b'A' ∷ b'l' ∷ b'i' ∷ b'c' ∷ b'e' ∷ []) ∷ [] ∷ []

abbrev bob : List Bytes
bob = (b'x' ∷ []) ∷ (b'B' ∷ b'o' ∷ b'b' ∷ []) ∷ (b'J' ∷ []) ∷ []

bob_runs : (do bytes ← encode bob []; decode bytes alice) ≡ done (alice ++ bob)
unfolding encode decode Memcmpable.encode Memcmpable.decode
bob_runs = refl

not_an_encoding : decode (1 ∷ 2 ∷ []) [] ≡ panic
unfolding decode Memcmpable.decode
not_an_encoding = refl

decode-encode_tuple_example : (do bytes ← encode bob []; decode bytes alice) ≡ done (alice ++ bob)
decode-encode_tuple_example = decode-encode_tuple bob alice

decode-ne-hang_example : decode (1 ∷ 2 ∷ []) alice ≢ hang
decode-ne-hang_example = decode-ne-hang (1 ∷ 2 ∷ []) alice

cmp-encode_tuple_example :
    (do x ← encode bob []; y ← encode alice []; done (cmp x y)) ≡ done (cmp_tuple bob alice)
cmp-encode_tuple_example = cmp-encode_tuple bob alice
