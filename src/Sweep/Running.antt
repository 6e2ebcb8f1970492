-- ===== src/Sweep/Running.antt =====
-- apps/web/app/api/cron/sweep/route.ts: what the sweep does with each running workspace.
use zedspaces.Base.{
  ℕ, ◌+◌, Bool, true, false, not, ◌&&◌, ◌||◌, Text, text_eq, lit, ◌++◌, Option, none, some, List,
  [], ◌∷◌, leb, ltb, is_some, get_or, if◌then◌else◌, filter, any, map, min, difference,
}
use zedspaces.Schema.{Workspace, WorkspaceState, User, Session, AuditEntry, cron}
use zedspaces.Effects.{
  Platform, M, ◌>>=◌, ◌>>◌, pure, catch, call, now, get_db, modify_db, SandboxHandle,
}
use zedspaces.Effects.Table.{update_workspace}
use zedspaces.Kv.{mget}
use zedspaces.Lifecycle.{start_lifecycle, stop_workspace, restart_session}
use zedspaces.Sessions.{is_open}
use zedspaces.Steps.Supervisor.{get_handle, is_running, is_gone}
use zedspaces.Sweep.Decision.{
  budget_ms, ping_lost_ms, extend_horizon_ms, extend_min_gain_ms, SweepResult, Reading, Action,
  stop_abuse, stop_idle, stop_cap, restart_cap, extend, choose,
}

-- `openSessionWorkspaces`, asked of one workspace.
unfoldable pub has_session : Text → List Session → Bool
has_session id ss = any (λ s. text_eq s.workspace_id id && is_open s) ss

unfoldable pub flagged : Text → ℕ → List User → List User
flagged id t us =
    map
      (λ u.
        if text_eq u.id id
        then record u {
          flagged_at = some t;
          flag_reason = some (lit "sustained_cpu_no_session");
          updated_at = t;
        }
        else u)
      us

-- `capAt`
abbrev pub cap_at : ℕ → ℕ → Workspace → ℕ
cap_at cap t row = get_or t row.session_started_at + cap

unfoldable pub with_timeout : ℕ → Workspace → Workspace
with_timeout desired r = record r { sandbox_expires_at = some desired }

abbrev pub no_value : Option (Option Text) → Option Text
no_value none = none
no_value (some v) = v

abbrev pub head_of : {A : Type 0} → List A → Option A
head_of [] = none
head_of (x ∷ xs) = some x

abbrev pub rest_of : {A : Type 0} → List A → List A
rest_of [] = []
rest_of (x ∷ xs) = xs

-- The answers of the five `mget` calls and of `openSessionWorkspaces`, workspace by workspace.
abbrev pub reading_of :
    List Session
    → Workspace
    → List (Option Text)
    → List (Option Text)
    → List (Option Text)
    → List (Option Text)
    → List (Option Text)
    → Reading
reading_of ss row activity keepalive health cpu busy = record {
  activity = no_value (head_of activity);
  keepalive = no_value (head_of keepalive);
  health = no_value (head_of health);
  cpu = no_value (head_of cpu);
  busy = no_value (head_of busy);
  attached = has_session row.id ss;
}

unfoldable pub readings :
    List Session
    → List Workspace
    → List (Option Text)
    → List (Option Text)
    → List (Option Text)
    → List (Option Text)
    → List (Option Text)
    → List (Workspace × Reading)
unfolding has_session
readings ss [] activity keepalive health cpu busy = []
readings ss (row ∷ rows) activity keepalive health cpu busy =
    (row, reading_of ss row activity keepalive health cpu busy)
    ∷ readings ss rows (rest_of activity) (rest_of keepalive) (rest_of health) (rest_of cpu)
        (rest_of busy)

abbrev pub keys_of : Text → List Workspace → List Text
keys_of prefix rows = map (λ r. prefix ++ r.id) rows

abbrev pub says_running : WorkspaceState → Bool
says_running WorkspaceState.running = true
says_running _ = false

abbrev pub is_sweepable : Workspace → Bool
is_sweepable r =
    says_running r.state && not (is_some r.workflow_run_id) && not (is_some r.deleted_at)

-- `!peek || peek.status === …`
abbrev pub is_vm_lost : Option SandboxHandle → Bool
is_vm_lost none = true
is_vm_lost (some peek) = is_gone peek.status

module _ {p : Platform} where
  unfoldable pub audit : AuditEntry → M p (Unit {0})
  audit entry = modify_db (λ db. record db { audit_log = db.audit_log ++ entry ∷ [] })

  unfoldable pub stop_lost : Workspace → SweepResult → Bool → M p (SweepResult × Bool)
  stop_lost row out true = do
    run_id ← start_lifecycle row.id stop_workspace
    pure (record out { reconciled_vms = out.reconciled_vms + 1 }, true)
  stop_lost row out false = do
    audit (record {
      actor_type = cron;
      actor_id = lit "sweep";
      action = lit "workspace.unhealthy";
      target_type = lit "workspace";
      target_id = row.id;
    })
    pure (out, false)

  -- `reconcileVm`
  unfoldable pub reconcile_vm : Workspace → ℕ → SweepResult → M p (SweepResult × Bool)
  unfolding stop_lost
  reconcile_vm row t out =
      if leb t (row.updated_at + ping_lost_ms)
      then pure (out, false)
      else (do peek ← get_handle row.sandbox_name false; stop_lost row out (is_vm_lost peek))

  unfoldable pub extend_running : Workspace → ℕ → ℕ → SweepResult → SandboxHandle → M p SweepResult
  unfolding with_timeout
  extend_running row t desired out peek = do
    call (p.extend_timeout peek (difference desired (get_or t peek.expires_at)))
    update_workspace row.id (with_timeout desired)
    pure (record out { extended = out.extended + 1 })

  unfoldable pub extend_found :
      Workspace → ℕ → ℕ → SweepResult → Option SandboxHandle → M p SweepResult
  unfolding extend_running
  extend_found row t desired out none = pure out
  extend_found row t desired out (some peek) =
      if is_running peek.status then extend_running row t desired out peek else pure out

  -- `extendTimeout`
  unfoldable pub extend_timeout : Workspace → ℕ → SweepResult → M p SweepResult
  unfolding extend_found
  extend_timeout row t out =
      let desired = min (t + p.env.session_timeout_ms) (cap_at p.env.session_cap_ms t row) in
      let expires_at = get_or 0 row.sandbox_expires_at in
      if leb (t + extend_horizon_ms) expires_at || leb desired (expires_at + extend_min_gain_ms)
      then pure out
      else (do peek ← get_handle row.sandbox_name false; extend_found row t desired out peek)

  unfoldable pub act : Workspace → ℕ → SweepResult → Action → M p SweepResult
  unfolding flagged extend_timeout
  act row t out stop_abuse = do
    run_id ← start_lifecycle row.id stop_workspace
    modify_db (λ db. record db { users = flagged row.owner_user_id t db.users })
    pure (record out { abuse = out.abuse + 1 })
  act row t out stop_idle = do
    run_id ← start_lifecycle row.id stop_workspace
    pure (record out { stopped = out.stopped + 1 })
  act row t out stop_cap = do
    run_id ← start_lifecycle row.id stop_workspace
    pure (record out { stopped = out.stopped + 1 })
  act row t out restart_cap = do
    run_id ← start_lifecycle row.id restart_session
    pure (record out { capped = out.capped + 1 })
  act row t out extend = extend_timeout row t out

  unfoldable pub act_unless_lost : Workspace → ℕ → Reading → SweepResult × Bool → M p SweepResult
  unfolding act choose
  act_unless_lost row t reading (out, true) = pure out
  act_unless_lost row t reading (out, false) =
      act row t out (choose p.env.session_cap_ms t row reading)

  -- The VM is asked for only without a recent ping.
  unfoldable pub check_vm : Workspace → ℕ → SweepResult → Option Text → M p (SweepResult × Bool)
  unfolding reconcile_vm
  check_vm row t out none = reconcile_vm row t out
  check_vm row t out (some ping) = pure (out, false)

  -- The function that `sweep` maps over the running workspaces.
  unfoldable pub sweep_row : Workspace → ℕ → Reading → SweepResult → M p SweepResult
  unfolding act_unless_lost check_vm
  sweep_row row t reading out = do
    u ← now
    if ltb (t + budget_ms) u
        then pure (record out { skipped = out.skipped + 1 })
        else (do checked ← check_vm row t out reading.health; act_unless_lost row t reading checked)

  unfoldable pub sweep_rows : ℕ → List (Workspace × Reading) → SweepResult → M p SweepResult
  unfolding sweep_row
  sweep_rows t [] out = pure out
  sweep_rows t ((row, reading) ∷ rest) out = do
    next ← catch (sweep_row row t reading out) (λ e. pure out)
    sweep_rows t rest next

  -- `sweep`, after the runs have been reconciled.
  unfoldable pub sweep_running : ℕ → SweepResult → M p SweepResult
  unfolding readings sweep_rows
  sweep_running t out = do
    db ← get_db
    u ← now
    let rows = filter is_sweepable db.workspaces
    sweep_rows t
        (readings db.sessions rows (mget (keys_of (lit "zs:activity:") rows) u db.kv)
          (mget (keys_of (lit "zs:keepalive:") rows) u db.kv)
          (mget (keys_of (lit "zs:health:") rows) u db.kv)
          (mget (keys_of (lit "zs:cpu:") rows) u db.kv)
          (mget (keys_of (lit "zs:busy:") rows) u db.kv))
        out
