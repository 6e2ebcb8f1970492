-- ===== src/Lifecycle/Keeps.antt =====
-- Starting a lifecycle run, of any workspace, keeps what its writes of the rows keep: the
-- reservation, its confirmation and its withdrawal.
use zedspaces.Base.{
  ℕ, Bool, true, false, Text, lit, Option, none, some, List, [], ◌∷◌, ◌≡◌, refl, Bool-cases, inl,
  inr, starts_with, if◌then◌else◌,
}
use zedspaces.Schema.{Workspace, WorkspaceState}
use zedspaces.Effects.{Platform, M, World, Res, ok, err, hung, Removal}
use zedspaces.Effects.Hoare.{After}
use zedspaces.Effects.Table.{Rows, Rows-update_any, update_rows}
use zedspaces.Effects.Keeps.{
  Inv, Keeps, Keeps-bind, Keeps-then, Keeps-pure, Keeps-throw, Keeps-call, Keeps-now, Keeps-catch,
  Keeps-if, Keeps-read, Keeps-get_db, Keeps-modify, Keeps-update, Keeps-select, Keeps-some_or,
  Keeps-store,
}
use zedspaces.Kv.Lock.{finally, acquire, release, with_lock}
use zedspaces.Workflows.Keeps.{Keeps-status}
use zedspaces.Lifecycle.{
  holds_run, reserved, freed, confirmed, reserve_rows, LifecycleWorkflowName, is_run_active, run_of,
  write_reserved, start_reserved, start_unless_busy, start_locked, start_lifecycle,
}

-- What a run's reservation leaves true of a row.
pub record KeepsRun (φ : Workspace → Type 0) : Type 0 where
  pub reserve : (run_id : Text) (t : ℕ) (r : Workspace) → φ r → φ (reserved run_id t r)
  pub free : (run_id : Text) (r : Workspace) → φ r → φ (freed run_id r)
  pub confirm : (old run_id : Text) (t : ℕ) (r : Workspace) → φ r → φ (confirmed old run_id t r)

freed-id : (run_id : Text) (r : Workspace) → (freed run_id r).id ≡ r.id
unfolding freed
freed-id run_id r = elim (Bool-cases (holds_run run_id r.workflow_run_id)) [
  | inl hit ↦ rw hit refl
  | inr miss ↦ rw miss refl
]

confirmed-id : (old run_id : Text) (t : ℕ) (r : Workspace) → (confirmed old run_id t r).id ≡ r.id
unfolding confirmed
confirmed-id old run_id t r = elim (Bool-cases (holds_run old r.workflow_run_id)) [
  | inl hit ↦ rw hit refl
  | inr miss ↦ rw miss refl
]

module _ {p : Platform} {id : Text} {φ : Workspace → Type 0} {ρ : List Removal → Type 0} where
  module _ {A : Type 0} where
    Keeps-finally :
        (m : M p A) (k : M p (Unit {0}))
        → Keeps id φ ρ m
        → Keeps id φ ρ k
        → Keeps id φ ρ (finally m k)
    unfolding finally
    Keeps-finally m k h h' = record { triple = λ w pw. go (m w) (h.triple w pw) }
      where
        go :
            (x : World p × Res A)
            → After (λ _. Inv id φ ρ) (Inv id φ ρ) x
            → After (λ _. Inv id φ ρ) (Inv id φ ρ) (finally (λ _. x) k x.0)
        go (w, ok a) q = (Keeps-then h' (Keeps-pure a)).triple w q
        go (w, err e) q = (Keeps-then h' (Keeps-throw e)).triple w q
        go (w, hung) q = tt

  module _ {A : Type 0} where
    pub Keeps-with_lock :
        (key : Text) (ttl_ms : ℕ) (m : M p A)
        → Keeps id φ ρ m
        → Keeps id φ ρ (with_lock key ttl_ms m)
    unfolding with_lock acquire release
    Keeps-with_lock key ttl_ms m h = Keeps-bind (Keeps-call p.random) (λ token.
        Keeps-bind
          (Keeps-bind Keeps-now (λ t.
            Keeps-bind Keeps-get_db (λ db. Keeps-then (Keeps-modify _ (λ d. refl)) (Keeps-pure _))))
          (λ acquired.
            Keeps-if acquired
              (Keeps-finally _ _ (Keeps-bind h (λ a. Keeps-pure (some a)))
                (Keeps-modify _ (λ d. refl)))
              (Keeps-pure none)))

module _ {p : Platform} {id : Text} {φ : Workspace → Type 0} {ρ : List Removal → Type 0} where
  pub Keeps-is_run_active : (o : Option Text) → Keeps id φ ρ (is_run_active {p = p} o)
  unfolding is_run_active
  Keeps-is_run_active none = Keeps-pure false
  Keeps-is_run_active (some []) = Keeps-pure false
  Keeps-is_run_active (some (c ∷ s)) =
      Keeps-if (starts_with (lit "admitting:") (c ∷ s)) (Keeps-pure true)
        (Keeps-bind (Keeps-status (c ∷ s)) (λ status. Keeps-pure _))

  module _ (keeps : KeepsRun φ) where
    Rows-reserve :
        (j : Text) (name : LifecycleWorkflowName) (state : WorkspaceState) (run_id : Text) (t : ℕ)
        (rows : List Workspace)
        → Rows id φ rows
        → Keeps id φ ρ (write_reserved {p = p} (reserve_rows p.env j name state run_id t rows))
    unfolding write_reserved reserve_rows reserved
    Rows-reserve j name state run_id t rows h = go _
      where
        written : Rows id φ (update_rows j (reserved run_id t) rows)
        written =
            Rows-update_any id j φ (reserved run_id t) rows (λ r. refl) (keeps.reserve run_id t) h

        go :
            (b : Bool)
            → Keeps id φ ρ (
                write_reserved {p = p}
                  (if b then none else some (update_rows j (reserved run_id t) rows)))
        go true = Keeps-throw _
        go false = Keeps-store (update_rows j (reserved run_id t) rows) written

    Keeps-start_reserved :
        (j : Text) (name : LifecycleWorkflowName) (pending_id : Text)
        → Keeps id φ ρ (start_reserved {p = p} j name pending_id)
    unfolding start_reserved
    Keeps-start_reserved j name pending_id =
        Keeps-bind
          (Keeps-catch (Keeps-call _) (λ e.
            Keeps-then (Keeps-update j _ (freed-id pending_id) (keeps.free pending_id))
              (Keeps-throw e)))
          (λ run_id. Keeps-bind Keeps-now (λ t.
            Keeps-then
              (Keeps-update j _ (confirmed-id pending_id run_id t)
                (keeps.confirm pending_id run_id t))
              (Keeps-pure run_id)))

    Keeps-start_unless_busy :
        (j : Text) (name : LifecycleWorkflowName) (current : Option Workspace) (busy : Bool)
        → Keeps id φ ρ (start_unless_busy {p = p} j name current busy)
    unfolding start_unless_busy
    Keeps-start_unless_busy j name current true = Keeps-throw _
    Keeps-start_unless_busy j name none false = Keeps-throw _
    Keeps-start_unless_busy j name (some ws) false = Keeps-bind (Keeps-call p.random) (λ bytes.
        Keeps-bind Keeps-now (λ t. Keeps-read (λ db h.
          Keeps-then (Rows-reserve j name ws.state _ t db.workspaces h)
            (Keeps-start_reserved j name _))))

    -- A row keeps `φ`, whichever workspace the run is started for.
    pub Keeps-start_lifecycle :
        (j : Text) (name : LifecycleWorkflowName) → Keeps id φ ρ (start_lifecycle {p = p} j name)
    unfolding start_lifecycle start_locked
    Keeps-start_lifecycle j name =
        Keeps-bind
          (Keeps-with_lock _ 30000 _ (
            Keeps-bind (Keeps-select j) (λ current.
              Keeps-bind (Keeps-is_run_active (run_of current))
                (λ busy. Keeps-start_unless_busy j name current busy))))
          (λ result. Keeps-some_or result _)
