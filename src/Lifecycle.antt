-- ===== src/Lifecycle.antt =====
-- apps/web/lib/lifecycle.ts and apps/web/lib/workspace-budget.ts: starting a lifecycle run for a
-- workspace, under its lock and within the budget of running workspaces.
pub mod Budget
pub mod Occupancy
pub mod Keeps
use zedspaces.Base.{
  ℕ, ◌+◌, Bool, true, false, not, ◌&&◌, ◌||◌, Text, text_eq, lit, ◌++◌, starts_with, Option, none,
  some, List, [], ◌∷◌, ltb, is_some, if◌then◌else◌,
}
use zedspaces.Schema.{Workspace, WorkspaceState, creating, running, stopping, rebuilding, Env}
use zedspaces.Effects.{
  Platform, M, ◌>>=◌, ◌>>◌, pure, throw, catch, call, now, get_db, modify_db, some_or, api_error,
  RunStatus, pending, Error,
}
use zedspaces.Effects.Table.{select_workspace, update_workspace, update_rows}
use zedspaces.Kv.Lock.{with_lock}
use zedspaces.Workflows.Child.{step_child_status}

pub data LifecycleWorkflowName : Type 0 where
  create_workspace connect_workspace stop_workspace restart_session : LifecycleWorkflowName
  rebuild_workspace delete_workspace gc : LifecycleWorkflowName

abbrev pub name_text : LifecycleWorkflowName → Text
name_text create_workspace = lit "createWorkspace"
name_text connect_workspace = lit "connectWorkspace"
name_text stop_workspace = lit "stopWorkspace"
name_text restart_session = lit "restartSession"
name_text rebuild_workspace = lit "rebuildWorkspace"
name_text delete_workspace = lit "deleteWorkspace"
name_text gc = lit "gc"

-- `["connectWorkspace", "createWorkspace", "rebuildWorkspace", "restartSession"].includes(name)`
unfoldable pub activates : LifecycleWorkflowName → Bool
activates connect_workspace = true
activates create_workspace = true
activates rebuild_workspace = true
activates restart_session = true
activates _ = false

-- `ACTIVE_WORKSPACE_STATES`
unfoldable pub is_active_state : WorkspaceState → Bool
is_active_state creating = true
is_active_state running = true
is_active_state stopping = true
is_active_state rebuilding = true
is_active_state _ = false

abbrev pub is_other : Option Text → Text → Bool
is_other none id = true
is_other (some excluded) id = not (text_eq id excluded)

-- The `where` clause of the count.
unfoldable pub counts : Option Text → Workspace → Bool
unfolding is_active_state
counts excluded r =
    not (is_some r.deleted_at)
    && is_other excluded r.id
    && (is_active_state r.state || is_some r.workflow_run_id)

unfoldable pub load : Option Text → List Workspace → ℕ
unfolding counts
load excluded [] = 0
load excluded (r ∷ rs) = let rest = load excluded rs in if counts excluded r then rest + 1 else rest

-- `assertWorkspaceCapacity` does not throw.
unfoldable pub has_capacity : Env → Option Text → List Workspace → Bool
unfolding load
has_capacity e excluded rows = ltb (load excluded rows) e.max_running_workspaces

unfoldable pub reserved : Text → ℕ → Workspace → Workspace
reserved run_id t r = record r { workflow_run_id = some run_id; workflow_run_started_at = some t }

-- The transaction of `startLifecycle`; `none` is the refusal. `state` is the state read before it.
unfoldable pub reserve_rows :
    Env
    → Text
    → LifecycleWorkflowName
    → WorkspaceState
    → Text
    → ℕ
    → List Workspace
    → Option (List Workspace)
unfolding activates is_active_state has_capacity update_rows reserved
reserve_rows e id name state run_id t rows =
    if activates name && not (is_active_state state) && not (has_capacity e (some id) rows)
    then none
    else some (update_rows id (reserved run_id t) rows)

abbrev pub holds_run : Text → Option Text → Bool
holds_run run_id none = false
holds_run run_id (some held) = text_eq held run_id

unfoldable pub freed : Text → Workspace → Workspace
freed run_id r =
    if holds_run run_id r.workflow_run_id
    then record r { workflow_run_id = none; workflow_run_started_at = none }
    else r

unfoldable pub confirmed : Text → Text → ℕ → Workspace → Workspace
confirmed pending_id run_id t r =
    if holds_run pending_id r.workflow_run_id
    then record r { workflow_run_id = some run_id; workflow_run_started_at = some t }
    else r

abbrev is_unfinished : RunStatus → Bool
is_unfinished RunStatus.pending = true
is_unfinished RunStatus.running = true
is_unfinished _ = false

abbrev run_of : Option Workspace → Option Text
run_of none = none
run_of (some ws) = ws.workflow_run_id

module _ {p : Platform} where
  -- `isRunActive`
  unfoldable pub is_run_active : Option Text → M p Bool
  is_run_active none = pure false
  is_run_active (some []) = pure false
  is_run_active (some (c ∷ s)) =
      if starts_with (lit "admitting:") (c ∷ s)
      then pure true
      else (do status ← step_child_status (c ∷ s); pure (is_unfinished status))

  unfoldable pub write_reserved : Option (List Workspace) → M p (Unit {0})
  write_reserved none = throw (api_error 429 (lit "workspace_limit"))
  write_reserved (some rows) = modify_db (λ db. record db { workspaces = rows })

  unfoldable pub start_reserved : Text → LifecycleWorkflowName → Text → M p Text
  unfolding freed confirmed
  start_reserved id name pending_id = do
    run_id ←
        catch (call (p.start (name_text name)))
          (λ e. do update_workspace id (freed pending_id); throw e)
    t ← now
    update_workspace id (confirmed pending_id run_id t)
    pure run_id

  unfoldable pub start_unless_busy :
      Text → LifecycleWorkflowName → Option Workspace → Bool → M p Text
  unfolding reserve_rows write_reserved start_reserved
  start_unless_busy id name current true = throw (api_error 423 (lit "workspace_busy"))
  start_unless_busy id name none false = throw (api_error 404 (lit "not_found"))
  start_unless_busy id name (some ws) false = do
    bytes ← call p.random
    t ← now
    db ← get_db
    write_reserved (reserve_rows p.env id name ws.state (lit "admitting:" ++ bytes) t db.workspaces)
    start_reserved id name (lit "admitting:" ++ bytes)

  unfoldable pub start_locked : Text → LifecycleWorkflowName → M p Text
  unfolding is_run_active start_unless_busy
  start_locked id name = do
    current ← select_workspace id
    busy ← is_run_active (run_of current)
    start_unless_busy id name current busy

  unfoldable pub start_lifecycle : Text → LifecycleWorkflowName → M p Text
  unfolding start_locked
  start_lifecycle id name = do
    result ← with_lock (lit "zs:lock:lifecycle:" ++ id) 30000 (start_locked id name)
    some_or result (api_error 423 (lit "workspace_busy"))
