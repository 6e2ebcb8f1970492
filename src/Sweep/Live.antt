-- ===== src/Sweep/Live.antt =====
-- Reconciling the runs leaves a workspace alone whose run has not ended.
use zedspaces.Base.{
  ℕ, subst, some_inj, ◌+◌, ◌≡◌, ◌⊎◌, refl, sym, ◌∙◌, ap, inl, inr, Bool, true, false, Text, text_eq,
  text_eq_iff, Option, none, some, List, [], ◌∷◌, filter, Bool-cases,
}
use zedspaces.Schema.{Workspace}
use zedspaces.Effects.{Platform, M, ◌>>=◌, RunStatus, Removal}
use zedspaces.Effects.Keeps.{
  Keeps, Keeps-bind, Keeps-then, Keeps-pure, Keeps-catch, Keeps-read, Keeps-update_other,
}
use zedspaces.Effects.Table.{Rows, Rows-weaken}
use zedspaces.Forwards.Slots.{All-filter}
use zedspaces.Lifecycle.{holds_run}
use zedspaces.Workflows.Child.{step_child_status}
use zedspaces.Sweep.{
  is_lost, released, is_stuck, release_if, reconcile_run, reconcile_rows, reconcile_runs,
}

-- The run store always reports the run as pending or running.
abbrev pub IsUnfinished : (p : Platform) → Text → Type 0
IsUnfinished p run_id =
    (s : p.State)
    → ((p.run_status run_id s).1 ≡ RunStatus.pending)
      ⊎ ((p.run_status run_id s).1 ≡ RunStatus.running)

pub released-id :
    (run_id : Text) (status : RunStatus) (t : ℕ) (r : Workspace)
    → (released run_id status t r).id ≡ r.id
unfolding released
released-id run_id status t r = elim (Bool-cases (holds_run run_id r.workflow_run_id)) [
  | inl hit ↦ rw hit refl
  | inr miss ↦ rw miss refl
]

is_lost-unfinished :
    (t : ℕ) (started : Option ℕ) (status : RunStatus)
    → (status ≡ RunStatus.pending) ⊎ (status ≡ RunStatus.running)
    → is_lost t started status ≡ false
unfolding is_lost
is_lost-unfinished t started status (inl e) = rw e refl
is_lost-unfinished t started status (inr e) = rw e refl

module _ {p : Platform} {id : Text} {φ : Workspace → Type 0} {ρ : List Removal → Type 0} where
  Keeps-status :
      {A : Type 0} (run_id : Text) (f : RunStatus → M p A)
      → ((s : p.State) → Keeps id φ ρ (f (p.run_status run_id s).1))
      → Keeps id φ ρ (step_child_status run_id >>= f)
  unfolding step_child_status
  Keeps-status run_id f k = record { triple = λ w h. (k w.cloud).triple _ h }

  Keeps-release :
      (t : ℕ) (row : Workspace) (run_id : Text) (count : ℕ) (status : RunStatus) (b : Bool)
      → (b ≡ true → text_eq row.id id ≡ false)
      → Keeps id φ ρ (release_if {p = p} t row run_id count status b)
  unfolding release_if
  Keeps-release t row run_id count status false apart = Keeps-pure count
  Keeps-release t row run_id count status true apart =
      Keeps-then
        (Keeps-update_other row.id (released run_id status t) (apart refl)
          (released-id run_id status t))
        (Keeps-pure (count + 1))

module _ (p : Platform) (id run_id : Text) (live : IsUnfinished p run_id) where
  -- A run of the workspace itself is not lost.
  lost-apart :
      (t : ℕ) (row : Workspace) (run : Text) (s : p.State)
      → (row.id ≡ id → run ≡ run_id)
      → is_lost t row.workflow_run_started_at (p.run_status run s).1 ≡ true
      → text_eq row.id id ≡ false
  lost-apart t row run s own lost = elim (Bool-cases (text_eq row.id id)) [
    | inl same ↦ absurd (not_lost (own ((text_eq_iff row.id id).0 same)))
    | inr apart ↦ apart
  ]
    where
      not_lost : run ≡ run_id → ⊥
      not_lost e = cc (
          is_lost-unfinished t row.workflow_run_started_at (p.run_status run s).1
            (subst (IsUnfinished p) (sym e) live s))

  module _ {φ : Workspace → Type 0} {ρ : List Removal → Type 0} where
    Keeps-reconcile_run :
        (t : ℕ) (row : Workspace) (o : Option Text) (count : ℕ)
        → (row.id ≡ id → o ≡ some run_id)
        → Keeps id φ ρ (reconcile_run {p = p} t row o count)
    unfolding reconcile_run
    Keeps-reconcile_run t row none count own = Keeps-pure count
    Keeps-reconcile_run t row (some []) count own = Keeps-pure count
    Keeps-reconcile_run t row (some (c ∷ s)) count own =
        Keeps-status (c ∷ s)
          (λ status.
            release_if t row (c ∷ s) count status (is_lost t row.workflow_run_started_at status))
          (λ w.
            Keeps-release t row (c ∷ s) count _ _
              (lost-apart t row (c ∷ s) w (λ e. some_inj (c ∷ s) run_id (own e))))

    Keeps-reconcile_rows :
        (t : ℕ) (rows : List Workspace) (count : ℕ)
        → Rows id (λ r. r.workflow_run_id ≡ some run_id) rows
        → Keeps id φ ρ (reconcile_rows {p = p} t rows count)
    unfolding reconcile_rows
    Keeps-reconcile_rows t [] count h = Keeps-pure count
    Keeps-reconcile_rows t (row ∷ rows) count (own, h) =
        Keeps-bind
          (Keeps-catch (Keeps-reconcile_run t row row.workflow_run_id count own)
            (λ e. Keeps-pure count))
          (λ next. Keeps-reconcile_rows t rows next h)

  -- If the run store always reports the run that a workspace's row names as pending or running,
  -- then reconciling the runs leaves the row as it is, whatever it does to the other rows.
  pub reconcile_runs-Unchanged :
      (ws : Workspace)
      → ws.workflow_run_id ≡ some run_id
      → (t : ℕ) → Keeps id (λ r. r ≡ ws) (λ l. Unit) (reconcile_runs {p = p} t)
  unfolding reconcile_runs
  reconcile_runs-Unchanged ws e t = Keeps-read (λ db h.
      Keeps-reconcile_rows t (filter is_stuck db.workspaces) 0 (
        All-filter _ is_stuck db.workspaces
          (Rows-weaken id _ _ db.workspaces (λ r q. ap (λ x. x.workflow_run_id) q ∙ e) h)))
