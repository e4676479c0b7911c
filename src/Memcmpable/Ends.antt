-- ===== src/Memcmpable/Ends.antt =====
-- src/memcmpable.rs: `decode` ends on every source, with a value or with a panic.
use relly.Prelude.{
  ℕ, zero, suc, ◌+◌, ◌≤◌, ◌<◌, Bytes, length, drop, Run, done, panic, hang, arith, length-drop,
  lt-of_get_elem?, get_elem?, Option-cases, inl, inr, ltb, Bool-cases,
}
use relly.Memcmpable.{decode_loop, decode}

-- It ends with a shorter source, or with a panic.
abbrev pub Consumes : Bytes → Run (Bytes × Bytes) → Type 0
Consumes src (done (rest, dst)) = length rest + 9 ≤ length src
Consumes src panic = Unit {0}
Consumes src hang = ⊥

Consumes-mono :
    (r : Run (Bytes × Bytes)) (short long : Bytes)
    → length short ≤ length long
    → Consumes short r
    → Consumes long r
Consumes-mono (done (rest, dst)) short long h c = omega arith
Consumes-mono panic short long h c = tt
Consumes-mono hang short long h c = c

decode_loop-Consumes :
    (fuel : ℕ) (src dst : Bytes) → length src < fuel → Consumes src (decode_loop fuel src dst)
unfolding decode_loop
decode_loop-Consumes zero src dst h = elim h [ ]
decode_loop-Consumes (suc fuel) src dst h = elim (Option-cases (get_elem? src 8)) [
  | inl short ↦ rw short tt
  | inr (extra, e) ↦
      let long : 8 < length src = lt-of_get_elem? src 8 extra e in
      rw e (elim (Bool-cases (ltb extra 9)) [
        | inl last ↦ rw last (omega (arith, length-drop 9 src))
        | inr more ↦ rw more (
            Consumes-mono _ (drop 9 src) src (omega (arith, length-drop 9 src))
              (decode_loop-Consumes fuel (drop 9 src) _ (omega (arith, length-drop 9 src))))
      ])
]

pub decode-Consumes : (src dst : Bytes) → Consumes src (decode src dst)
unfolding decode
decode-Consumes src dst = decode_loop-Consumes (suc (length src)) src dst (omega arith)
