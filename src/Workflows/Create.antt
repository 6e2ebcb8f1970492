-- ===== src/Workflows/Create.antt =====
-- apps/web/workflows/create-workspace.ts
use zedspaces.Base.{ℕ, ◌+◌, Bool, not, Text, lit, Option, none, some, get_or}
use zedspaces.Schema.{Workspace, WorkspaceState, creating}
use zedspaces.Effects.{Platform, M, ◌>>=◌, ◌>>◌, throw, catch, when, now, Error}
use zedspaces.Steps.Db.{
  WorkspacePatch, no_patch, done, failed, step_load_workspace, step_pick_image,
  step_build_create_input, step_record_sandbox_session, step_set_state, step_finish_run,
}
use zedspaces.Steps.Sandbox.{step_create_sandbox, step_start_supervisor}
use zedspaces.Workflows.Ready.{wait_ready}

-- `CreateWorkspaceRun`, without the `userId` that the body never reads.
pub record CreateWorkspaceRun : Type 0 where
  pub workspace_id : Text
  pub child : Bool
  pub ready_ceiling_ms : Option ℕ

abbrev pub create_ceiling_ms : ℕ
create_ceiling_ms = 2100000

-- A pending rebuild keeps the archive.
abbrev pub restore_patch : Option Text → WorkspacePatch
restore_patch (some previous) = no_patch
restore_patch none = record no_patch { restore_blob_pathname = some none }

module _ {p : Platform} where
  -- The handler of the `try`: a run that owns `workflow_run_id` clears it, and the error goes on.
  unfoldable pub abandon : Text → Bool → Error → M p (Unit {0})
  abandon id child e = do
    when (not child) (step_finish_run id (failed (p.describe e) none))
    throw e

  unfoldable pub boot_created : ℕ → Workspace → Option ℕ → M p (Unit {0})
  boot_created fuel ws ceiling = do
    image ← step_pick_image ws.id
    input ← step_build_create_input ws.id image
    created ← step_create_sandbox input
    step_record_sandbox_session ws.id creating (some (lit "boot:manifest")) created
        (some ws.restore_kind) none
    started ← step_start_supervisor ws.id ws.sandbox_name
    t ← now
    wait_ready fuel (record {
      workspace_id = ws.id;
      health_host = created.health_host;
      sandbox_name = ws.sandbox_name;
      cmd_id = started.cmd_id;
      server_build = ws.server_build;
      deadline = t + get_or create_ceiling_ms ceiling;
    })
    step_set_state ws.id WorkspaceState.running (some none) (restore_patch ws.previous_sandbox_name)

  unfoldable pub create_workspace : ℕ → CreateWorkspaceRun → M p (Unit {0})
  unfolding boot_created abandon
  create_workspace fuel input =
      catch
        (do
          ws ← step_load_workspace input.workspace_id
          boot_created fuel ws input.ready_ceiling_ms
          when (not input.child) (step_finish_run ws.id done))
        (abandon input.workspace_id input.child)
