-- ===== src/Concurrency/Invariant.antt =====
-- What holds in every state of a run: the indices below `next` have been called, once each, and
-- each has its result or a worker that awaits it.
use zedspaces.Base.{
  ℕ, zero, suc, ◌+◌, ◌<◌, ◌≤◌, ◌≡◌, refl, sym, ap, ◌∙◌, List, [], ◌∷◌, some, arith, ◌⊎◌, inl, inr,
  ◌==◌, Bool-cases, ==_iff, ==_refl, ◌≢◌,
}
use zedspaces.Concurrency.{
  SettledResult, Worker, testing, awaiting, returned, update, Run, Step, begin, settle, leave,
  Reach, start, later, initial, worker_count,
}

-- The numbers below `n`, the greatest first.
abbrev pub downwards : ℕ → List ℕ
downwards zero = []
downwards (suc n) = n ∷ downwards n

update-hit : {A : Type 0} (f : ℕ → A) (i : ℕ) (a : A) → update f i a i ≡ a
update-hit f i a = rw (==_refl i) refl

index : Worker → ℕ
index (awaiting i) = i
index testing = 0
index returned = 0

awaiting_inj : {i j : ℕ} → awaiting i ≡ awaiting j → i ≡ j
unfolding index
awaiting_inj e = ap index e

-- An updated family, by whether the index is the updated one.
update-cases :
    {A : Type 0} (f : ℕ → A) (i j : ℕ) (a : A)
    → ((j ≡ i) × (update f i a j ≡ a)) ⊎ ((j ≢ i) × (update f i a j ≡ f j))
update-cases f i j a = elim (Bool-cases (j == i)) [
  | inl hit ↦ inl ((==_iff j i).0 hit, rw hit refl)
  | inr miss ↦ inr (ground (arith, ==_iff j i, miss), rw miss refl)
]

module _ {R E : Type 0} (count : ℕ) (outcome : ℕ → SettledResult R E) where
  -- An index that has been called: settled, or awaited by a worker.
  abbrev pub Accounted : Run R E → ℕ → Type 0
  Accounted s i =
      (s.results i ≡ some (outcome i)) ⊎ ((w : ℕ) × (w < count) × (s.workers w ≡ awaiting i))

  pub record Inv (items : ℕ) (s : Run R E) : Type 0 where
    pub called : s.calls ≡ downwards s.next
    pub within : s.next ≤ items
    pub accounted : (i : ℕ) → i < s.next → Accounted s i
    pub finished : (w : ℕ) → s.workers w ≡ returned → items ≤ s.next

downwards-add_one : (n : ℕ) → downwards (n + 1) ≡ n ∷ downwards n
downwards-add_one n = let e : n + 1 ≡ suc n = omega arith in ap downwards e

module _ {R E : Type 0} {count : ℕ} (outcome : ℕ → SettledResult R E) where
  -- A worker that was not awaiting does not lose an index.
  Accounted-idle :
      (s : Run R E) (w : ℕ) (pc : Worker) (i : ℕ)
      → ((j : ℕ) → s.workers w ≢ awaiting j)
      → Accounted count outcome s i
      → (s.results i ≡ some (outcome i))
        ⊎ ((v : ℕ) × (v < count) × (update s.workers w pc v ≡ awaiting i))
  Accounted-idle s w pc i idle (inl e) = inl e
  Accounted-idle s w pc i idle (inr (v, lt, e)) = elim (update-cases s.workers w v pc) [
    | inl (same, q) ↦ absurd (idle i (ap s.workers (sym same) ∙ e))
    | inr (far, q) ↦ inr (v, lt, q ∙ e)
  ]

  -- A worker that was awaiting index `i` settles it and loses no other.
  Accounted-settle :
      (s : Run R E) (w i j : ℕ)
      → s.workers w ≡ awaiting i
      → Accounted count outcome s j
      → (update s.results i (some (outcome i)) j ≡ some (outcome j))
        ⊎ ((v : ℕ) × (v < count) × (update s.workers w testing v ≡ awaiting j))
  Accounted-settle s w i j at old = elim (update-cases s.results i j (some (outcome i))) [
    | inl (same, q) ↦ inl (q ∙ ap (λ k. some (outcome k)) (sym same))
    | inr (far, q) ↦ elim old [
      | inl e ↦ inl (q ∙ e)
      | inr (v, lt, e) ↦ elim (update-cases s.workers w v testing) [
        | inl (same, q') ↦ absurd (far (awaiting_inj (sym e ∙ ap s.workers same ∙ at)))
        | inr (apart, q') ↦ inr (v, lt, q' ∙ e)
      ]
    ]
  ]

-- A worker that has not just returned had returned before.
returned-before :
    {R E : Type 0} (s : Run R E) (w v : ℕ) (pc : Worker)
    → pc ≢ returned
    → update s.workers w pc v ≡ returned
    → s.workers v ≡ returned
returned-before s w v pc ne e = elim (update-cases s.workers w v pc) [
  | inl (same, q) ↦ absurd (ne (sym q ∙ e))
  | inr (far, q) ↦ sym q ∙ e
]

module _ {R E : Type 0} {count items : ℕ} {outcome : ℕ → SettledResult R E} where
  Inv-initial : Inv count outcome items initial
  Inv-initial = record {
    called = refl;
    within = omega arith;
    accounted = λ i h. absurd (omega (arith, h));
    finished = λ w e. absurd (cc);
  }

  Inv-Step :
      {s t : Run R E}
      → Step count items outcome s t
      → Inv count outcome items s
      → Inv count outcome items t
  Inv-Step {s} (begin w lt at more) inv = record {
    called = ap (λ l. s.next ∷ l) inv.called ∙ sym (downwards-add_one s.next);
    within = omega (arith, more);
    accounted = λ i h. elim (Bool-cases (i == s.next)) [
      | inl last ↦ inr (
        w,
        lt,
        update-hit s.workers w (awaiting s.next) ∙ ap awaiting (sym ((==_iff i s.next).0 last)),
      )
      | inr below ↦
          Accounted-idle outcome s w (awaiting s.next) i (λ j e. absurd (cc))
            (inv.accounted i (ground (arith, below, h)))
    ];
    finished = λ v e. absurd (
        omega (
          arith,
          more,
          inv.finished v (returned-before s w v (awaiting s.next) (λ q. absurd (cc)) e),
        ));
  }
  Inv-Step {s} (settle w i lt at) inv = record {
    called = inv.called;
    within = inv.within;
    accounted = λ j h. Accounted-settle outcome s w i j at (inv.accounted j h);
    finished = λ v e. inv.finished v (returned-before s w v testing (λ q. absurd (cc)) e);
  }
  Inv-Step {s} (leave w lt at all) inv = record {
    called = inv.called;
    within = inv.within;
    accounted =
        λ i h. Accounted-idle outcome s w returned i (λ j e. absurd (cc)) (inv.accounted i h);
    finished = λ v e. all;
  }

pub Inv-Reach :
    {R E : Type 0} {n items : ℕ} {outcome : ℕ → SettledResult R E} {s : Run R E}
    → Reach n items outcome s
    → Inv (worker_count n items) outcome items s
Inv-Reach start = Inv-initial
Inv-Reach (later r st) = Inv-Step st (Inv-Reach r)
