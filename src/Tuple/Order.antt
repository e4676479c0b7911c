-- ===== src/Tuple/Order.antt =====
-- src/tuple.rs: the order of the encodings is the order of the tuples, column by column.
use relly.Prelude.{◌≡◌, refl, ap, ◌∙◌, List, [], ◌∷◌, Bytes, done, ◌>>=◌, Ordering}
use relly.Prelude.Cmp.{then_with, cmp}
use relly.Memcmpable.Order.{cmp-encoding, cmp-nil-encoding, cmp-encoding-nil}
use relly.Tuple.{encode}
use relly.Tuple.RoundTrip.{encodings, encode-encodings}

-- Tuples compare by their first columns that differ, a proper prefix being less.
unfoldable pub cmp_tuple : List Bytes → List Bytes → Ordering
cmp_tuple [] [] = Ordering.eq
cmp_tuple [] (y ∷ ys) = Ordering.lt
cmp_tuple (x ∷ xs) [] = Ordering.gt
cmp_tuple (x ∷ xs) (y ∷ ys) = then_with (cmp x y) (cmp_tuple xs ys)

cmp-encodings : (xs ys : List Bytes) → cmp (encodings xs) (encodings ys) ≡ cmp_tuple xs ys
unfolding cmp_tuple encodings
cmp-encodings [] [] = unfold cmp in refl
cmp-encodings [] (y ∷ ys) = cmp-nil-encoding y (encodings ys)
cmp-encodings (x ∷ xs) [] = cmp-encoding-nil x (encodings xs)
cmp-encodings (x ∷ xs) (y ∷ ys) =
    cmp-encoding x y (encodings xs) (encodings ys) ∙ ap (then_with (cmp x y)) (cmp-encodings xs ys)

-- The encodings of two tuples compare as the tuples do.
pub cmp-encode_tuple :
    (xs ys : List Bytes)
    → (do x ← encode xs []; y ← encode ys []; done (cmp x y)) ≡ done (cmp_tuple xs ys)
cmp-encode_tuple xs ys =
    rw (encode-encodings xs [], encode-encodings ys []) (ap done (cmp-encodings xs ys))
