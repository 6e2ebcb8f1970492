-- ===== src/Lifecycle/Occupancy.antt =====
-- Admission keeps the running workspaces within the budget, said of the rows themselves.
use zedspaces.Base.{
  ℕ, ◌+◌, ◌≤◌, true, not, ◌&&◌, ◌||◌, Text, Option, none, some, is_some, List, [], ◌∷◌, ◌≡◌, refl,
  arith,
}
use zedspaces.Schema.{
  Workspace, WorkspaceState, creating, running, stopping, rebuilding, stopped, deleting, error, Env,
}
use zedspaces.Effects.Table.{find_row}
use zedspaces.Lifecycle.{
  LifecycleWorkflowName, create_workspace, connect_workspace, rebuild_workspace, restart_session,
  stop_workspace, delete_workspace, gc, activates, is_active_state, counts, load, reserve_rows,
}
use zedspaces.Lifecycle.Budget.{DistinctIds, step, reserve_rows-counted}

-- The runs that bring a sandbox up.
abbrev pub Boots : LifecycleWorkflowName → Type 0
Boots create_workspace = Unit
Boots connect_workspace = Unit
Boots rebuild_workspace = Unit
Boots restart_session = Unit
Boots stop_workspace = ⊥
Boots delete_workspace = ⊥
Boots gc = ⊥

-- What a workspace takes of the budget, from its deletion, the run that owns it and its state.
abbrev pub room_of : Option ℕ → Option Text → WorkspaceState → ℕ
room_of (some t) run state = 0
room_of none (some run) state = 1
room_of none none creating = 1
room_of none none running = 1
room_of none none stopping = 1
room_of none none rebuilding = 1
room_of none none stopped = 0
room_of none none deleting = 0
room_of none none error = 0

abbrev pub occupancy : List Workspace → ℕ
occupancy [] = 0
occupancy (r ∷ rs) = room_of r.deleted_at r.workflow_run_id r.state + occupancy rs

counts-room_of :
    (r : Workspace) (n : ℕ)
    → step (counts none r) n ≡ room_of r.deleted_at r.workflow_run_id r.state + n
unfolding counts is_active_state
counts-room_of r n = by_row r.deleted_at r.workflow_run_id r.state
  where
    by_row :
        (d : Option ℕ) (run : Option Text) (s : WorkspaceState)
        → step (not (is_some d) && true && (is_active_state s || is_some run)) n
          ≡ room_of d run s + n
    by_row (some t) run s = omega arith
    by_row none (some run) s = ground arith
    by_row none none creating = omega arith
    by_row none none running = omega arith
    by_row none none stopping = omega arith
    by_row none none rebuilding = omega arith
    by_row none none stopped = omega arith
    by_row none none deleting = omega arith
    by_row none none error = omega arith

load-occupancy : (rows : List Workspace) → load none rows ≡ occupancy rows
unfolding load
load-occupancy [] = refl
load-occupancy (r ∷ rs) = rw (load-occupancy rs) (counts-room_of r (occupancy rs))

Boots-activates : (name : LifecycleWorkflowName) → Boots name → activates name ≡ true
unfolding activates
Boots-activates create_workspace h = refl
Boots-activates connect_workspace h = refl
Boots-activates rebuild_workspace h = refl
Boots-activates restart_session h = refl
Boots-activates stop_workspace h = elim h [ ]
Boots-activates delete_workspace h = elim h [ ]
Boots-activates gc h = elim h [ ]

-- With distinct ids, suppose that at most as many workspaces as the budget allows are not deleted
-- and either owned by a run or creating, running, stopping or rebuilding. If a run that creates,
-- resumes, rebuilds or restarts the workspace found under the id is admitted, then at most as many
-- are after its reservation.
pub reserve_rows-occupancy :
    (e : Env) (id : Text) (name : LifecycleWorkflowName) (cur : Workspace) (run_id : Text) (t : ℕ)
    (rows rows' : List Workspace)
    → DistinctIds rows
    → find_row id rows ≡ some cur
    → Boots name
    → occupancy rows ≤ e.max_running_workspaces
    → reserve_rows e id name cur.state run_id t rows ≡ some rows'
    → occupancy rows' ≤ e.max_running_workspaces
reserve_rows-occupancy e id name cur run_id t rows rows' d found boots h q =
    rw (← (load-occupancy rows')) (
      reserve_rows-counted e id name cur run_id t rows rows' d found (Boots-activates name boots)
        (rw (load-occupancy rows) h) q)
