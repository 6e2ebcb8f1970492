-- ===== src/Sweep/Capped.antt =====
-- The sweep keeps the timeout of a sandbox within the cap of its session.
use zedspaces.Base.{
  ℕ, ◌+◌, ◌≤◌, ◌≡◌, refl, some_inj, inl, inr, Bool, true, false, Text, text_eq, text_eq_iff, Option,
  none, some, List, [], ◌∷◌, All, filter, Bool-cases, arith,
}
use zedspaces.Schema.{Workspace, Session}
use zedspaces.Effects.{Platform, M, RunStatus, Removal, SandboxHandle}
use zedspaces.Effects.Keeps.{
  Keeps, Keeps-bind, Keeps-then, Keeps-pure, Keeps-catch, Keeps-call, Keeps-now, Keeps-if,
  Keeps-read, Keeps-get_db, Keeps-modify, Keeps-update, Keeps-update_other,
}
use zedspaces.Effects.Table.{update_workspace}
use zedspaces.Forwards.Slots.{All-filter}
use zedspaces.Lifecycle.{
  holds_run, freed, confirmed, reserved, stop_workspace, restart_session, start_lifecycle,
  LifecycleWorkflowName,
}
use zedspaces.Lifecycle.Keeps.{KeepsRun, Keeps-start_lifecycle}
use zedspaces.Steps.Keeps.{Keeps-get}
use zedspaces.Steps.Supervisor.{is_running}
use zedspaces.Workflows.Keeps.{Keeps-status}
use zedspaces.Sweep.{
  released, is_lost, is_stuck, release_if, reconcile_run, reconcile_rows, reconcile_runs, sweep,
}
use zedspaces.Sweep.Live.{released-id}
use zedspaces.Sweep.Decision.{
  SweepResult, Reading, Action, stop_abuse, stop_idle, stop_cap, restart_cap, extend,
}
use zedspaces.Sweep.Running.{
  with_timeout, readings, is_sweepable, audit, is_vm_lost, stop_lost, reconcile_vm, extend_running,
  extend_found, extend_timeout, act, act_unless_lost, check_vm, sweep_row, sweep_rows,
  sweep_running,
}

-- The session began at `start`, and a recorded timeout lies within its cap.
abbrev pub Capped : ℕ → ℕ → Workspace → Type 0
Capped cap start r =
    (r.session_started_at ≡ some start)
    × ((at : ℕ) → r.sandbox_expires_at ≡ some at → at ≤ start + cap)

module _ (cap start : ℕ) where
  KeepsRun-Capped : KeepsRun (Capped cap start)
  unfolding reserved freed confirmed
  KeepsRun-Capped = record {
    reserve = λ run_id t r h. h;
    free = λ run_id r h. elim (Bool-cases (holds_run run_id r.workflow_run_id)) [
      | inl hit ↦ rw hit h
      | inr miss ↦ rw miss h
    ];
    confirm = λ old run_id t r h. elim (Bool-cases (holds_run old r.workflow_run_id)) [
      | inl hit ↦ rw hit h
      | inr miss ↦ rw miss h
    ];
  }

  released-Capped :
      (run_id : Text) (status : RunStatus) (t : ℕ) (r : Workspace)
      → Capped cap start r
      → Capped cap start (released run_id status t r)
  unfolding released
  released-Capped run_id status t r h = elim (Bool-cases (holds_run run_id r.workflow_run_id)) [
    | inl hit ↦ rw hit h
    | inr miss ↦ rw miss h
  ]

  with_timeout-Capped :
      (desired : ℕ) (r : Workspace)
      → desired ≤ start + cap
      → Capped cap start r
      → Capped cap start (with_timeout desired r)
  unfolding with_timeout
  with_timeout-Capped desired r le h = (h.0, λ at e. omega (arith, le, some_inj desired at e))

All-readings :
    (P : Workspace → Type 0) (ss : List Session) (rows : List Workspace)
    (activity keepalive health cpu busy : List (Option Text))
    → All P rows
    → All (λ x. P x.0) (readings ss rows activity keepalive health cpu busy)
unfolding readings
All-readings P ss [] activity keepalive health cpu busy h = tt
All-readings P ss (row ∷ rows) activity keepalive health cpu busy (hx, h) =
    (hx, All-readings P ss rows _ _ _ _ _ h)

module _ (p : Platform) (id : Text) (start : ℕ) (ρ : List Removal → Type 0) where
  abbrev pub Safe : {A : Type 0} → M p A → Type 0
  Safe m = Keeps {p = p} id (Capped p.env.session_cap_ms start) ρ m

  Keeps-reconcile_run :
      (t : ℕ) (row : Workspace) (o : Option Text) (count : ℕ) → Safe (reconcile_run t row o count)
  unfolding reconcile_run release_if
  Keeps-reconcile_run t row none count = Keeps-pure count
  Keeps-reconcile_run t row (some []) count = Keeps-pure count
  Keeps-reconcile_run t row (some (c ∷ s)) count =
      Keeps-bind (Keeps-status (c ∷ s))
        (λ status. go status (is_lost t row.workflow_run_started_at status))
    where
      go : (status : RunStatus) (b : Bool) → Safe (release_if t row (c ∷ s) count status b)
      go status false = Keeps-pure count
      go status true =
          Keeps-then
            (Keeps-update row.id _ (released-id (c ∷ s) status t)
              (released-Capped p.env.session_cap_ms start (c ∷ s) status t))
            (Keeps-pure (count + 1))

  Keeps-reconcile_rows :
      (t : ℕ) (rows : List Workspace) (count : ℕ) → Safe (reconcile_rows t rows count)
  unfolding reconcile_rows
  Keeps-reconcile_rows t [] count = Keeps-pure count
  Keeps-reconcile_rows t (row ∷ rows) count =
      Keeps-bind
        (Keeps-catch (Keeps-reconcile_run t row row.workflow_run_id count) (λ e. Keeps-pure count))
        (λ next. Keeps-reconcile_rows t rows next)

  Keeps-extend_found :
      (row : Workspace) (t desired : ℕ) (out : SweepResult) (o : Option SandboxHandle)
      → (row.id ≡ id → desired ≤ start + p.env.session_cap_ms)
      → Safe (extend_found row t desired out o)
  unfolding extend_found extend_running with_timeout
  Keeps-extend_found row t desired out none bound = Keeps-pure out
  Keeps-extend_found row t desired out (some peek) bound =
      Keeps-if (is_running peek.status)
        (Keeps-then (Keeps-call _) (Keeps-then recorded (Keeps-pure _))) (Keeps-pure out)
    where
      recorded : Safe (update_workspace row.id (with_timeout desired))
      recorded = elim (Bool-cases (text_eq row.id id)) [
        | inl same ↦
            Keeps-update row.id (with_timeout desired) (λ r. refl)
              (λ r.
                with_timeout-Capped p.env.session_cap_ms start desired r
                  (bound ((text_eq_iff row.id id).0 same)))
        | inr apart ↦ Keeps-update_other row.id (with_timeout desired) apart (λ r. refl)
      ]

  Keeps-extend_timeout :
      (row : Workspace) (t : ℕ) (out : SweepResult)
      → (row.id ≡ id → Capped p.env.session_cap_ms start row)
      → Safe (extend_timeout row t out)
  unfolding extend_timeout
  Keeps-extend_timeout row t out own = Keeps-if _ (Keeps-pure out) (
      Keeps-bind (Keeps-get row.sandbox_name false)
        (λ peek. Keeps-extend_found row t _ out peek (λ e. rw (own e).0 (omega arith))))

  Keeps-start_run :
      (row : Workspace) (name : LifecycleWorkflowName) → Safe (start_lifecycle row.id name)
  Keeps-start_run row name =
      Keeps-start_lifecycle (KeepsRun-Capped p.env.session_cap_ms start) row.id name

  Keeps-act :
      (row : Workspace) (t : ℕ) (out : SweepResult) (a : Action)
      → (row.id ≡ id → Capped p.env.session_cap_ms start row)
      → Safe (act row t out a)
  unfolding act
  Keeps-act row t out stop_abuse own =
      Keeps-bind (Keeps-start_run row stop_workspace)
        (λ run_id. Keeps-then (Keeps-modify _ (λ db. refl)) (Keeps-pure _))
  Keeps-act row t out stop_idle own =
      Keeps-bind (Keeps-start_run row stop_workspace) (λ run_id. Keeps-pure _)
  Keeps-act row t out stop_cap own =
      Keeps-bind (Keeps-start_run row stop_workspace) (λ run_id. Keeps-pure _)
  Keeps-act row t out restart_cap own =
      Keeps-bind (Keeps-start_run row restart_session) (λ run_id. Keeps-pure _)
  Keeps-act row t out extend own = Keeps-extend_timeout row t out own

  Keeps-stop_lost :
      (row : Workspace) (out : SweepResult) (lost : Bool) → Safe (stop_lost row out lost)
  unfolding stop_lost audit
  Keeps-stop_lost row out true =
      Keeps-bind (Keeps-start_run row stop_workspace) (λ run_id. Keeps-pure _)
  Keeps-stop_lost row out false = Keeps-then (Keeps-modify _ (λ db. refl)) (Keeps-pure _)

  Keeps-check_vm :
      (row : Workspace) (t : ℕ) (out : SweepResult) (ping : Option Text)
      → Safe (check_vm row t out ping)
  unfolding check_vm reconcile_vm
  Keeps-check_vm row t out (some ping) = Keeps-pure _
  Keeps-check_vm row t out none = Keeps-if _ (Keeps-pure _) (
      Keeps-bind (Keeps-get row.sandbox_name false)
        (λ peek. Keeps-stop_lost row out (is_vm_lost peek)))

  Keeps-act_unless_lost :
      (row : Workspace) (t : ℕ) (reading : Reading) (checked : SweepResult × Bool)
      → (row.id ≡ id → Capped p.env.session_cap_ms start row)
      → Safe (act_unless_lost row t reading checked)
  unfolding act_unless_lost
  Keeps-act_unless_lost row t reading (out, true) own = Keeps-pure out
  Keeps-act_unless_lost row t reading (out, false) own = Keeps-act row t out _ own

  Keeps-sweep_rows :
      (t : ℕ) (rows : List (Workspace × Reading)) (out : SweepResult)
      → All (λ x. x.0.id ≡ id → Capped p.env.session_cap_ms start x.0) rows
      → Safe (sweep_rows t rows out)
  unfolding sweep_rows sweep_row
  Keeps-sweep_rows t [] out h = Keeps-pure out
  Keeps-sweep_rows t ((row, reading) ∷ rest) out (own, h) =
      Keeps-bind
        (Keeps-catch
          (Keeps-bind Keeps-now (λ u. Keeps-if _ (Keeps-pure _) (
            Keeps-bind (Keeps-check_vm row t out reading.health)
              (λ checked. Keeps-act_unless_lost row t reading checked own))))
          (λ e. Keeps-pure out))
        (λ next. Keeps-sweep_rows t rest next h)

  -- If the session of a workspace began at a known time, and a timeout recorded for its sandbox
  -- lies within the cap of that session, then both still hold after a sweep, whatever the platform
  -- and the run store answer, of this workspace and of all others.
  pub sweep-Capped : (t : ℕ) → Keeps id (Capped p.env.session_cap_ms start) ρ (sweep {p = p} t)
  unfolding sweep reconcile_runs sweep_running
  sweep-Capped t =
      Keeps-bind
        (Keeps-bind Keeps-get_db (λ db. Keeps-reconcile_rows t (filter is_stuck db.workspaces) 0))
        (λ runs. Keeps-read (λ db h. Keeps-bind Keeps-now (λ u. Keeps-sweep_rows t _ _ (
          All-readings _ db.sessions (filter is_sweepable db.workspaces) _ _ _ _ _
            (All-filter _ is_sweepable db.workspaces h)))))
