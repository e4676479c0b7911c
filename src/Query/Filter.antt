-- ===== src/Query/Filter.antt =====
-- src/query.rs: `ExecFilter`.
use relly.Prelude.{
  ℕ, suc, ◌+◌, ◌≡◌, refl, ap, List, [], ◌∷◌, Bool, true, false, Option, some, Run, done, ◌>>=◌,
  Bool-cases, inl, inr, ◌∙◌, subst, arith, if◌then◌else◌,
}
use relly.Prelude.Exec.{ok}
use relly.Buffer.{BufferPoolManager}
use relly.Btree.{Bincode}
use relly.Btree.Client.{Error}
use relly.Query.{Tuple, Condition, Executor, exec_filter, filtered, next}
use relly.Query.Yields.{Answer, Steps, Yields, ended, failed, gave, next-more, Yields-step}

-- What the condition answers on each tuple of a list.
pub data Answers (cond : Condition) (p : Tuple → Bool) : List Tuple → Type 0 where
  nil : Answers cond p []
  cons :
      (t : Tuple) (ts : List Tuple)
      → cond t ≡ done (p t)
      → Answers cond p ts
      → Answers cond p (t ∷ ts)

abbrev pub select : (Tuple → Bool) → List Tuple → List Tuple
select p [] = []
select p (t ∷ ts) = if p t then t ∷ select p ts else select p ts

module _ (bincode : Bincode) (fuel : ℕ) (cond : Condition) where
  add_comm : (a b : ℕ) → a + b ≡ b + a
  add_comm a b = omega arith

  next-exec_filter :
      (rounds : ℕ) (e : Executor) (m : BufferPoolManager)
      → next bincode fuel (suc rounds) (exec_filter e cond) m
        ≡ (next bincode fuel rounds e m >>= filtered cond (next bincode fuel rounds))
  unfolding next
  next-exec_filter rounds e m = refl

  -- A call of the inner executor that gives no tuple, or one that the filter lets through.
  filter_passes :
      (e : Executor) (m : BufferPoolManager) (y r : Answer)
      → ((again : Executor → BufferPoolManager → Run Answer) → filtered cond again y ≡ done r)
      → Steps bincode fuel e m y
      → Steps bincode fuel (exec_filter e cond) m r
  unfolding next
  filter_passes e m y r pass (rounds, s) = (suc rounds, rw s (pass (next bincode fuel rounds)))

  filtered_skips :
      (again : Executor → BufferPoolManager → Run Answer) (e : Executor) (m : BufferPoolManager)
      (t : Tuple)
      → cond t ≡ done false
      → filtered cond again (ok (some t), e, m) ≡ again (exec_filter e cond) m
  unfolding filtered
  filtered_skips again e m t refused = rw refused refl

  -- One that it does not: the call goes on with the next.
  filter_skips :
      (e e' : Executor) (m m' : BufferPoolManager) (t : Tuple) (r : Answer)
      → cond t ≡ done false
      → Steps bincode fuel e m (ok (some t), e', m')
      → Steps bincode fuel (exec_filter e' cond) m' r
      → Steps bincode fuel (exec_filter e cond) m r
  filter_skips e e' m m' t r refused (rounds, s) (rounds', s') = (
    suc (rounds' + rounds),
    next-exec_filter (rounds' + rounds) e m
        ∙ ap (λ y. y >>= filtered cond (next bincode fuel (rounds' + rounds)))
            (next-more bincode fuel rounds' rounds e m _ s)
        ∙ filtered_skips (next bincode fuel (rounds' + rounds)) e' m' t refused
        ∙ subst (λ n. next bincode fuel n (exec_filter e' cond) m' ≡ done r)
            (add_comm rounds rounds')
            (next-more bincode fuel rounds rounds' (exec_filter e' cond) m' r s'),
  )

  -- Over an inner executor that gives a list of tuples and then no tuple or an error, a filter whose
  -- condition answers on each of them gives those on which the answer is `true`, in the same order,
  -- and then ends as the inner executor does, whose error it passes on. Its loop ends.
  pub filter-Yields :
      (p : Tuple → Bool) (e e' : Executor) (m m' : BufferPoolManager) (ts : List Tuple)
      (x : Option Error)
      → Answers cond p ts
      → Yields bincode fuel e m ts (x, e', m')
      → Yields bincode fuel (exec_filter e cond) m (select p ts) (x, exec_filter e' cond, m')
  unfolding filtered
  filter-Yields p e e' m m' _ _ nil (ended s) = ended (filter_passes e m _ _ (λ again. refl) s)
  filter-Yields p e e' m m' _ _ nil (failed x s) =
      failed x (filter_passes e m _ _ (λ again. refl) s)
  filter-Yields p e e' m m' _ x (cons t ts a rest) (gave {e' = e1} {m' = m1} _ s more) =
      let tail = filter-Yields p e1 e' m1 m' ts x rest more in
      elim (Bool-cases (p t)) [
        | inl yes_kept ↦
            let c : cond t ≡ done true = a ∙ ap done yes_kept in
            rw yes_kept (gave t (filter_passes e m _ _ (λ again. rw c refl) s) tail)
        | inr dropped ↦
            let c : cond t ≡ done false = a ∙ ap done dropped in
            rw dropped (
              Yields-step bincode fuel (exec_filter e cond) (exec_filter e1 cond) m m1 (select p ts)
                (x, exec_filter e' cond, m') (λ r. filter_skips e e1 m m1 t r c s) tail)
      ]
