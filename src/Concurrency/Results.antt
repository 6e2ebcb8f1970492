-- ===== src/Concurrency/Results.antt =====
-- What `mapConcurrent` answers, whatever the order in which its calls settle.
use zedspaces.Base.{
  ℕ, zero, suc, ◌+◌, ◌<◌, ◌≡◌, ◌≢◌, refl, sym, ap, ◌∙◌, List, [], ◌∷◌, Option, some, map, arith,
  ◌⊎◌, inl, inr,
}
use zedspaces.Concurrency.{SettledResult, awaiting, returned, Run, Reach, worker_count}
use zedspaces.Concurrency.Invariant.{Inv-Reach, downwards}

-- `Promise.all(workers)` has resolved.
abbrev pub Resolved : {R E : Type 0} → ℕ → Run R E → Type 0
Resolved count s = (w : ℕ) → w < count → s.workers w ≡ returned

zero-or-positive : (n : ℕ) → (n ≡ 0) ⊎ (0 < n)
zero-or-positive zero = inl refl
zero-or-positive (suc n) = inr (omega arith)

returned≢awaiting : {i : ℕ} → returned ≢ awaiting i
returned≢awaiting e = cc

-- The specification: the calls are made one after the other, in order, on `n` indices from `i` on.
unfoldable pub one_by_one : {A : Type 0} → (ℕ → A) → ℕ → ℕ → List A
one_by_one f i zero = []
one_by_one f i (suc n) = f i ∷ one_by_one f (suc i) n

-- The array that the source returns; an index without a result is a hole.
unfoldable pub returned_array : {R E : Type 0} → Run R E → ℕ → ℕ → List (Option (SettledResult R E))
returned_array s i zero = []
returned_array s i (suc n) = s.results i ∷ returned_array s (suc i) n

array-outcomes :
    {R E : Type 0} (outcome : ℕ → SettledResult R E) (s : Run R E) (i n items : ℕ)
    → i + n ≡ items
    → ((j : ℕ) → j < items → s.results j ≡ some (outcome j))
    → returned_array s i n ≡ map some (one_by_one outcome i n)
unfolding one_by_one returned_array
array-outcomes outcome s i zero items e h = refl
array-outcomes outcome s i (suc n) items e h =
    rw (h i (omega (arith, e)), array-outcomes outcome s (suc i) n items (omega (arith, e)) h) refl

module _ {R E : Type 0} {n items : ℕ} {outcome : ℕ → SettledResult R E} {s : Run R E} where
  all_called : Reach n items outcome s → Resolved (worker_count n items) s → s.next ≡ items
  all_called r done = elim (zero-or-positive items) [
    | inl none_left ↦ omega (arith, (Inv-Reach r).within, none_left)
    | inr some_left ↦
        omega (
          arith,
          (Inv-Reach r).within,
          (Inv-Reach r).finished 0 (done 0 (omega (arith, some_left))),
        )
  ]

  result-outcome :
      Reach n items outcome s
      → Resolved (worker_count n items) s
      → (i : ℕ) → i < items
      → s.results i ≡ some (outcome i)
  result-outcome r done i h =
      elim ((Inv-Reach r).accounted i (omega (arith, all_called r done, h))) [
        | inl e ↦ e
        | inr (w, lt, e) ↦ absurd (returned≢awaiting (sym (done w lt) ∙ e))
      ]

  -- Every run of mapConcurrent in which all workers have returned, in whatever order its calls
  -- settle, refines the sequential specification: the array holds for each index how its call
  -- settled, as calling `fn` on one index after the other would give it, and `fn` has been called
  -- on each index exactly once, in ascending order.
  pub Resolved-one_by_one :
      Reach n items outcome s
      → Resolved (worker_count n items) s
      → (returned_array s 0 items ≡ map some (one_by_one outcome 0 items))
        × (s.calls ≡ downwards items)
  Resolved-one_by_one r done = (
    array-outcomes outcome s 0 items items (omega arith) (result-outcome r done),
    (Inv-Reach r).called ∙ ap downwards (all_called r done),
  )
