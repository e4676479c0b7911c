-- ===== src/Bsearch/Tests.antt =====
-- src/bsearch.rs: its test, and the theorems at an input.
use relly.Prelude.{
  ℕ, ◌≡◌, refl, Ordering, Run, done, Returns, List, [], ◌∷◌, get_or, compare, arith, ltb,
  if◌then◌else◌,
}
use relly.Bsearch.{ok, err, binary_search_by}
use relly.Bsearch.Sound.{
  IsOrdered, Locates, InRange, binary_search_by-InRange, binary_search_by-Locates,
}

abbrev fibonacci : List ℕ
fibonacci = 1 ∷ 2 ∷ 3 ∷ 5 ∷ 8 ∷ 13 ∷ 21 ∷ []

abbrev answer : ℕ → ℕ → Ordering
answer key i = compare (get_or fibonacci i 0) key

abbrev closure : ℕ → ℕ → Run Ordering
closure key i = done (answer key i)

hits :
    (binary_search_by 7 (closure 1) ≡ done (ok 0))
    × (binary_search_by 7 (closure 8) ≡ done (ok 4))
    × (binary_search_by 7 (closure 21) ≡ done (ok 6))
unfolding binary_search_by
hits = (refl, refl, refl)

misses :
    (binary_search_by 7 (closure 0) ≡ done (err 0))
    × (binary_search_by 7 (closure 6) ≡ done (err 4))
    × (binary_search_by 7 (closure 22) ≡ done (err 7))
unfolding binary_search_by
misses = (refl, refl, refl)

-- A step that is `Less` below 5 and `Greater` from there on.
abbrev step : ℕ → Ordering
step i = if ltb i 5 then Ordering.lt else Ordering.gt

step-IsOrdered : IsOrdered step 7
step-IsOrdered = record { below = λ i j a b h. ground arith; above = λ i j a b h. ground arith }

binary_search_by-InRange_example :
    Returns (binary_search_by 7 (closure 6)) (InRange (answer 6) 7 0 7)
binary_search_by-InRange_example = binary_search_by-InRange 7 (closure 6) (answer 6) (λ i h. refl)

binary_search_by-Locates_example :
    Returns (binary_search_by 7 (λ i. done (step i))) (Locates step 7)
binary_search_by-Locates_example =
    binary_search_by-Locates 7 (λ i. done (step i)) step (λ i h. refl) step-IsOrdered
