-- ===== src/Sweep.antt =====
-- apps/web/app/api/cron/sweep/route.ts: the sweep that runs every minute. `mapConcurrent` is taken
-- in the order of its items, each call apart: one that throws ends alone.
pub mod Decision
pub mod Running
pub mod Live
pub mod Capped
use zedspaces.Base.{
  ℕ, ◌+◌, ◌*◌, Bool, true, false, not, ◌&&◌, Text, text_eq, lit, ◌++◌, Option, none, some, List, [],
  ◌∷◌, leb, is_some, get_or, if◌then◌else◌, filter,
}
use zedspaces.Schema.{Workspace, WorkspaceState}
use zedspaces.Effects.{Platform, M, ◌>>=◌, ◌>>◌, pure, catch, now, get_db, modify_db, RunStatus}
use zedspaces.Effects.Table.{update_workspace}
use zedspaces.Kv.{sweep_expired}
use zedspaces.Kv.Lock.{with_lock}
use zedspaces.Lifecycle.{holds_run}
use zedspaces.Workflows.Child.{step_child_status}
use zedspaces.Sweep.Decision.{SweepResult, empty_result}
use zedspaces.Sweep.Running.{sweep_running}

-- `RUN_UNKNOWN_STALE_MS`
abbrev pub run_unknown_stale_ms : ℕ
run_unknown_stale_ms = 3600000

abbrev pub status_text : RunStatus → Text
status_text RunStatus.pending = lit "pending"
status_text RunStatus.running = lit "running"
status_text RunStatus.completed = lit "completed"
status_text RunStatus.failed = lit "failed"
status_text RunStatus.cancelled = lit "cancelled"
status_text RunStatus.unknown = lit "unknown"

-- The guards of `reconcileRuns`: whether a run that has this status is lost.
unfoldable pub is_lost : ℕ → Option ℕ → RunStatus → Bool
is_lost t started_at RunStatus.pending = false
is_lost t started_at RunStatus.running = false
is_lost t started_at RunStatus.unknown = not (leb t (get_or 0 started_at + run_unknown_stale_ms))
is_lost t started_at _ = true

-- A run that has completed leaves the state as it is; every other one leaves an error.
abbrev pub released_state : RunStatus → WorkspaceState → WorkspaceState
released_state RunStatus.completed state = state
released_state _ state = WorkspaceState.error

abbrev pub released_reason : RunStatus → Option Text → Option Text
released_reason RunStatus.completed reason = reason
released_reason status reason = some (lit "run_" ++ status_text status)

-- The `set` of `reconcileRuns`, on a row that still names the run.
unfoldable pub released : Text → RunStatus → ℕ → Workspace → Workspace
released run_id status t r =
    if holds_run run_id r.workflow_run_id
    then record r {
      workflow_run_id = none;
      workflow_run_started_at = none;
      state = released_state status r.state;
      state_reason = released_reason status r.state_reason;
      updated_at = t;
    }
    else r

abbrev pub is_stuck : Workspace → Bool
is_stuck r = is_some r.workflow_run_id && not (is_some r.deleted_at)

module _ {p : Platform} where
  unfoldable pub release_if : ℕ → Workspace → Text → ℕ → RunStatus → Bool → M p ℕ
  unfolding released
  release_if t row run_id count status false = pure count
  release_if t row run_id count status true = do
    update_workspace row.id (released run_id status t)
    pure (count + 1)

  unfoldable pub reconcile_run : ℕ → Workspace → Option Text → ℕ → M p ℕ
  unfolding release_if is_lost
  reconcile_run t row none count = pure count
  reconcile_run t row (some []) count = pure count
  reconcile_run t row (some (c ∷ run_id)) count = do
    status ← step_child_status (c ∷ run_id)
    release_if t row (c ∷ run_id) count status (is_lost t row.workflow_run_started_at status)

  unfoldable pub reconcile_rows : ℕ → List Workspace → ℕ → M p ℕ
  unfolding reconcile_run
  reconcile_rows t [] count = pure count
  reconcile_rows t (row ∷ rows) count = do
    next ← catch (reconcile_run t row row.workflow_run_id count) (λ e. pure count)
    reconcile_rows t rows next

  -- `reconcileRuns`
  unfoldable pub reconcile_runs : ℕ → M p ℕ
  unfolding reconcile_rows
  reconcile_runs t = do db ← get_db; reconcile_rows t (filter is_stuck db.workspaces) 0

  unfoldable pub sweep : ℕ → M p SweepResult
  unfolding reconcile_runs
  sweep t = do
    runs ← reconcile_runs t
    sweep_running t (record empty_result { reconciled_runs = runs })

  -- `GET`, after the check of the cron secret; `none` where another sweep holds the lock.
  unfoldable pub get_sweep : M p (Option SweepResult)
  unfolding sweep
  get_sweep = do
    t ← now
    modify_db (λ db. record db {
      auth_sessions = filter (λ s. not (leb s.expires_at t)) db.auth_sessions;
      auth_verifications = filter (λ v. not (leb v.expires_at t)) db.auth_verifications;
    })
    u ← now
    modify_db (λ db. record db { kv = sweep_expired u db.kv })
    with_lock (lit "zs:lock:sweep") 55000 (do v ← now; sweep v)
