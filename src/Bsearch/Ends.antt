-- ===== src/Bsearch/Ends.antt =====
-- src/bsearch.rs: the search ends whatever the closure does.
use relly.Prelude.{ℕ, zero, suc, ◌+◌, ◌-◌, ◌/◌, ◌<◌, ◌≡◌, ◌≢◌, Ordering, Run, hang, arith}
use relly.Bsearch.{search_loop, binary_search_by}

module _ (f : ℕ → Run Ordering) (ends : (i : ℕ) → f i ≢ hang) where
  search_loop-ne-hang :
      (fuel size left right : ℕ)
      → size ≡ right - left
      → size < fuel
      → search_loop f fuel size left right ≢ hang
  unfolding search_loop
  search_loop-ne-hang zero size left right z h = absurd (omega arith)
  search_loop-ne-hang (suc fuel) size left right z h =
      let mid = left + size / 2 in
      ground (
        arith,
        ends mid,
        search_loop-ne-hang fuel (right - (mid + 1)) (mid + 1) right,
        search_loop-ne-hang fuel (mid - left) left mid,
      )

-- Whatever the closure answers, and where it panics, the search does not run out of tests.
pub binary_search_by-ne-hang :
    (size : ℕ) (f : ℕ → Run Ordering) → ((i : ℕ) → f i ≢ hang) → binary_search_by size f ≢ hang
unfolding binary_search_by
binary_search_by-ne-hang size f ends =
    search_loop-ne-hang f ends (suc size) size 0 size (omega arith) (omega arith)
