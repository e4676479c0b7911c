-- ===== src/Memcmpable/Tests.antt =====
-- src/memcmpable.rs: its test, and the theorems at an input.
use relly.Prelude.{◌+◌, ◌≡◌, refl, [], ◌∷◌, ◌++◌, Bytes, length, take, done, panic, ◌>>=◌, Returns}
use relly.Prelude.Cmp.{then_with, cmp}
use relly.Memcmpable.{encode, decode, encoded_size}
use relly.Memcmpable.RoundTrip.{appended, length-encode, decode-encode}
use relly.Memcmpable.Order.{cmp-encode}

abbrev org1 : Bytes
org1 =
    b'h' ∷ b'e' ∷ b'l' ∷ b'l' ∷ b'o' ∷ b'w' ∷ b'o' ∷ b'r' ∷ b'l' ∷ b'd' ∷ b'!' ∷ b'm' ∷ b'e' ∷ b'm'
    ∷ b'c' ∷ b'm' ∷ b'p' ∷ b'a' ∷ b'b' ∷ b'l' ∷ b'e' ∷ []

abbrev org2 : Bytes
org2 = b'f' ∷ b'o' ∷ b'o' ∷ b'b' ∷ b'a' ∷ b'r' ∷ b'b' ∷ b'a' ∷ []

both :
    (do
      enc1 ← encode org1 []
      enc ← encode org2 enc1
      (rest, dec1) ← decode enc []
      decode rest dec1)
    ≡ done ([], org1 ++ org2)
unfolding encode decode
both = refl

-- `encoded_size` counts a block too many for a positive multiple of eight.
eight_bytes : (encode org2 [] ≡ done (org2 ++ 8 ∷ [])) × (encoded_size 8 ≡ 18)
unfolding encode encoded_size
eight_bytes = (refl, refl)

short_source : decode org2 [] ≡ panic
unfolding decode
short_source = refl

length-encode_example :
    Returns
      (encode org1 org2)
      (λ out. (take (length org2) out ≡ org2) × (length out ≡ length org2 + appended (length org1)))
length-encode_example = length-encode org1 org2

decode-encode_example :
    (do out ← encode org1 []; decode (out ++ org2) org2) ≡ done (org2, org2 ++ org1)
decode-encode_example = decode-encode org1 org2 org2

cmp-encode_example :
    (do x ← encode org1 []; y ← encode org2 []; done (cmp (x ++ org2) (y ++ org1)))
    ≡ done (then_with (cmp org1 org2) (cmp org2 org1))
cmp-encode_example = cmp-encode org1 org2 org2 org1
