-- ===== src/Concurrency.antt =====
-- apps/web/lib/concurrency.ts: `mapConcurrent`, its workers interleaved between their awaits.
pub mod Invariant
pub mod Results
use zedspaces.Base.{
  ℕ, ◌+◌, ◌<◌, ◌≤◌, ◌≡◌, ◌==◌, Bool, List, [], ◌∷◌, Option, none, some, if◌then◌else◌, min, max,
}

-- A `PromiseSettledResult`; the reason of a rejection is a value of type `E`.
pub data SettledResult (R E : Type 0) : Type 0 where
  fulfilled : R → SettledResult R E
  rejected : E → SettledResult R E

-- Where a worker stands: at the test of its loop, awaiting `fn` on an index, or returned.
pub data Worker : Type 0 where
  testing : Worker
  awaiting : ℕ → Worker
  returned : Worker

abbrev pub update : {A : Type 0} → (ℕ → A) → ℕ → A → ℕ → A
update f i a j = if j == i then a else f j

-- The variables that the workers share. `calls` are the indices on which `fn` was called, newest
-- first; the source keeps no such list.
pub record Run (R E : Type 0) : Type 0 where
  pub next : ℕ
  pub results : ℕ → Option (SettledResult R E)
  pub calls : List ℕ
  pub workers : ℕ → Worker

-- `Math.min(Math.max(1, n), items.length)`
abbrev pub worker_count : ℕ → ℕ → ℕ
worker_count n items = min (max 1 n) items

-- The loop's test succeeds: the worker takes the next index and calls `fn` on it.
abbrev pub begun : {R E : Type 0} → ℕ → Run R E → Run R E
begun w s = record {
  next = s.next + 1;
  results = s.results;
  calls = s.next ∷ s.calls;
  workers = update s.workers w (awaiting s.next);
}

-- The call on index `i` settles, whether it returns or throws.
abbrev pub saved : {R E : Type 0} → ℕ → ℕ → SettledResult R E → Run R E → Run R E
saved w i outcome s = record {
  next = s.next;
  results = update s.results i (some outcome);
  calls = s.calls;
  workers = update s.workers w testing;
}

-- The loop's test fails.
abbrev pub left : {R E : Type 0} → ℕ → Run R E → Run R E
left w s = record {
  next = s.next;
  results = s.results;
  calls = s.calls;
  workers = update s.workers w returned;
}

-- A worker runs without interruption from one `await` to the next. `outcome i` is how the call of
-- `fn` on index `i` settles.
pub data Step {R E : Type 0} (count items : ℕ) (outcome : ℕ → SettledResult R E) (s : Run R E)
    : Run R E → Type 0 where
  begin :
      (w : ℕ)
      → w < count
      → s.workers w ≡ testing
      → s.next < items
      → Step count items outcome s (begun w s)
  settle :
      (w i : ℕ)
      → w < count
      → s.workers w ≡ awaiting i
      → Step count items outcome s (saved w i (outcome i) s)
  leave :
      (w : ℕ)
      → w < count
      → s.workers w ≡ testing
      → items ≤ s.next
      → Step count items outcome s (left w s)

abbrev pub initial : {R E : Type 0} → Run R E
initial = record { next = 0; results = λ i. none; calls = []; workers = λ w. testing }

-- A run of `mapConcurrent(items, n, fn)` so far.
pub data Reach {R E : Type 0} (n items : ℕ) (outcome : ℕ → SettledResult R E)
    : Run R E → Type 0 where
  start : Reach n items outcome initial
  later :
      {s t : Run R E}
      → Reach n items outcome s
      → Step (worker_count n items) items outcome s t
      → Reach n items outcome t
