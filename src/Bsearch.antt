-- ===== src/Bsearch.antt =====
-- src/bsearch.rs: binary search over indices. The closure is a function that may panic.
pub mod Sound
pub mod Ends
mod Tests
use relly.Prelude.{
  ℕ, zero, suc, ◌+◌, ◌-◌, ◌/◌, Ordering, Run, done, panic, hang, ◌>>=◌, ltb, if◌then◌else◌,
}

-- `Result<usize, usize>`: the index found, or the insertion point.
pub data Found : Type 0 where
  ok : ℕ → Found
  err : ℕ → Found

-- The `while` loop on fuel; `size` is the mutable parameter.
unfoldable pub search_loop : (ℕ → Run Ordering) → (fuel size left right : ℕ) → Run Found
search_loop f zero size left right = hang
search_loop f (suc fuel) size left right =
    let mid = left + size / 2 in
    let round = (do
      order ← f mid
      elim order [
        | Ordering.lt ↦ search_loop f fuel (right - (mid + 1)) (mid + 1) right
        | Ordering.gt ↦ search_loop f fuel (mid - left) left mid
        | Ordering.eq ↦ done (ok mid)
      ]) in
    if ltb left right then round else done (err left)

-- Each round makes the range shorter, so `size` rounds and the last test are enough.
unfoldable pub binary_search_by : ℕ → (ℕ → Run Ordering) → Run Found
unfolding search_loop
binary_search_by size f = search_loop f (suc size) size 0 size
