-- ===== src/Workflows/Delete.antt =====
-- apps/web/workflows/delete-workspace.ts
use zedspaces.Base.{ℕ, Bool, true, false, not, Text, lit, Option, none, some}
use zedspaces.Schema.{Workspace, WorkspaceState, deleting}
use zedspaces.Effects.{Platform, M, ◌>>=◌, ◌>>◌, pure, catch, when}
use zedspaces.Steps.Db.{
  no_patch, done, step_load_workspace, step_set_state, step_finish_run, step_purge_workspace_rows,
}
use zedspaces.Steps.Commands.{step_delete_sandbox, step_delete_blob}
use zedspaces.Workflows.Child.{run_child}
use zedspaces.Workflows.Create.{abandon}
use zedspaces.Workflows.Stop.{StopReason, stop_workspace}

pub record DeleteWorkspaceRun : Type 0 where
  pub workspace_id : Text
  pub child : Bool

-- `state === "running" || state === "stopping"`
abbrev has_vm : WorkspaceState → Bool
has_vm WorkspaceState.running = true
has_vm WorkspaceState.stopping = true
has_vm _ = false

module _ {p : Platform} where
  unfoldable pub delete_sandbox_of : Option Text → M p (Unit {0})
  delete_sandbox_of none = pure tt
  delete_sandbox_of (some name) = step_delete_sandbox name

  unfoldable pub delete_blob_of : Option Text → M p (Unit {0})
  delete_blob_of none = pure tt
  delete_blob_of (some pathname) = step_delete_blob pathname

  unfoldable pub take_down : ℕ → Workspace → M p (Unit {0})
  unfolding delete_sandbox_of delete_blob_of
  take_down fuel ws = do
    when (has_vm ws.state) (
        run_child fuel (lit "stopWorkspace") (
          stop_workspace fuel
            (record { workspace_id = ws.id; reason = StopReason.delete; child = true })))
    step_set_state ws.id deleting none no_patch
    step_delete_sandbox ws.sandbox_name
    delete_sandbox_of ws.previous_sandbox_name
    delete_blob_of ws.restore_blob_pathname
    step_purge_workspace_rows ws.id

  unfoldable pub delete_workspace : ℕ → DeleteWorkspaceRun → M p (Unit {0})
  unfolding take_down
  delete_workspace fuel input =
      catch
        (do
          ws ← step_load_workspace input.workspace_id
          take_down fuel ws
          when (not input.child) (step_finish_run ws.id done))
        (abandon input.workspace_id input.child)
