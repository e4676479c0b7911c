-- ===== src/Bsearch/Sound.antt =====
-- src/bsearch.rs: what `binary_search_by` returns, for a closure that is defined below `size`.
use relly.Prelude.{
  ℕ, zero, suc, ◌+◌, ◌-◌, ◌/◌, ◌≤◌, ◌<◌, ◌≡◌, refl, Ordering, Run, done, panic, hang, Returns,
  arith,
}
use relly.Bsearch.{Found, ok, err, search_loop, binary_search_by}

-- What the closure reports falls from `lt` to `gt` as the index grows.
pub record IsOrdered (g : ℕ → Ordering) (n : ℕ) : Type 0 where
  pub below : (i j : ℕ) → i ≤ j → j < n → g j ≡ Ordering.lt → g i ≡ Ordering.lt
  pub above : (i j : ℕ) → i ≤ j → j < n → g i ≡ Ordering.gt → g j ≡ Ordering.gt

-- An index that matches, or a point that splits the indices into `lt` and `gt`.
abbrev pub Locates : (ℕ → Ordering) → ℕ → Found → Type 0
Locates g n (ok i) = (i < n) × (g i ≡ Ordering.eq)
Locates g n (err p) =
    (p ≤ n) × ((i : ℕ) → i < p → g i ≡ Ordering.lt) × ((i : ℕ) → p ≤ i → i < n → g i ≡ Ordering.gt)

-- The same with no order known, for the rounds on `left..right`.
abbrev pub InRange : (ℕ → Ordering) → ℕ → ℕ → ℕ → Found → Type 0
InRange g n left right (ok i) = (i < n) × (g i ≡ Ordering.eq)
InRange g n left right (err p) = (left ≤ p) × (p ≤ right)

module _ (f : ℕ → Run Ordering) (g : ℕ → Ordering) (n : ℕ)
    (defined : (i : ℕ) → i < n → f i ≡ done (g i)) where
  search_loop-InRange :
      (fuel size left right : ℕ)
      → size ≡ right - left
      → left ≤ right
      → right ≤ n
      → size < fuel
      → Returns (search_loop f fuel size left right) (InRange g n left right)
  unfolding search_loop
  search_loop-InRange zero size left right z a b h = absurd (omega arith)
  search_loop-InRange (suc fuel) size left right z a b h =
      let mid = left + size / 2 in
      ground (
        arith,
        defined mid,
        search_loop-InRange fuel (right - (mid + 1)) (mid + 1) right,
        search_loop-InRange fuel (mid - left) left mid,
      )

  module _ (ordered : IsOrdered g n) where
    -- What a miss tells about one index of the range.
    search_loop-Splits :
        (fuel size left right p i : ℕ)
        → size ≡ right - left
        → right ≤ n
        → size < fuel
        → left ≤ i
        → i < right
        → search_loop f fuel size left right ≡ done (err p)
        → (i < p → g i ≡ Ordering.lt) × (p ≤ i → g i ≡ Ordering.gt)
    unfolding search_loop
    search_loop-Splits zero size left right p i z b e c d h = cc
    search_loop-Splits (suc fuel) size left right p i z b e c d h =
        let mid = left + size / 2 in
        ground (
          arith,
          defined mid,
          search_loop-InRange fuel (right - (mid + 1)) (mid + 1) right,
          search_loop-InRange fuel (mid - left) left mid,
          search_loop-Splits fuel (right - (mid + 1)) (mid + 1) right p i,
          search_loop-Splits fuel (mid - left) left mid p i,
          ordered.below i mid,
          ordered.above mid i,
        )

-- Where the closure is defined below `size`, whatever the order of its answers, the search ends
-- with a value (no panic, and `size + 1` tests are enough): a hit is an index below `size` at
-- which the closure answers `Equal`, and a miss is a point from 0 to `size`.
pub binary_search_by-InRange :
    (size : ℕ) (f : ℕ → Run Ordering) (g : ℕ → Ordering)
    → ((i : ℕ) → i < size → f i ≡ done (g i))
    → Returns (binary_search_by size f) (InRange g size 0 size)
unfolding binary_search_by
binary_search_by-InRange size f g defined =
    search_loop-InRange f g size defined (suc size) size 0 size (omega arith) (omega arith)
      (omega arith) (omega arith)

-- Where the closure is defined below `size` and its answers go from `Less` through `Equal` to
-- `Greater`, the search ends with a value: a hit is an index below `size` at which the closure
-- answers `Equal`, and a miss is the point that splits the indices below `size` into those answered
-- `Less` and those answered `Greater`.
pub binary_search_by-Locates :
    (size : ℕ) (f : ℕ → Run Ordering) (g : ℕ → Ordering)
    → ((i : ℕ) → i < size → f i ≡ done (g i))
    → IsOrdered g size
    → Returns (binary_search_by size f) (Locates g size)
unfolding binary_search_by
binary_search_by-Locates size f g defined ordered =
    go (search_loop f (suc size) size 0 size) refl (binary_search_by-InRange size f g defined)
  where
    go :
        (r : Run Found)
        → search_loop f (suc size) size 0 size ≡ r
        → Returns r (InRange g size 0 size)
        → Returns r (Locates g size)
    go (done (ok i)) e h = h
    go (done (err p)) e h = (
      h.1,
      λ i b.
          (search_loop-Splits f g size defined ordered (suc size) size 0 size p i (omega arith)
              (omega arith) (omega arith) (omega arith) (omega arith) e).0
            b,
      λ i b c.
          (search_loop-Splits f g size defined ordered (suc size) size 0 size p i (omega arith)
              (omega arith) (omega arith) (omega arith) c e).1
            b,
    )
    go panic e h = h
    go hang e h = h
