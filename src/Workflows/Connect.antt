-- ===== src/Workflows/Connect.antt =====
-- apps/web/workflows/connect-workspace.ts
use zedspaces.Base.{ℕ, ◌+◌, Bool, not, Text, lit, Option, none, some, get_or}
use zedspaces.Schema.{Workspace, WorkspaceState}
use zedspaces.Effects.{Platform, M, ◌>>=◌, ◌>>◌, catch, when, now, some_or, fatal}
use zedspaces.Steps.Db.{
  no_patch, done, step_load_workspace, step_record_sandbox_session, step_set_state, step_finish_run,
}
use zedspaces.Steps.Sandbox.{step_resume_sandbox}
use zedspaces.Workflows.Ready.{wait_ready}
use zedspaces.Workflows.Create.{abandon}

pub record ConnectWorkspaceRun : Type 0 where
  pub workspace_id : Text
  pub child : Bool
  pub ready_ceiling_ms : Option ℕ

abbrev pub resume_ceiling_ms : ℕ
resume_ceiling_ms = 180000

module _ {p : Platform} where
  unfoldable pub boot_resumed : ℕ → Workspace → Option ℕ → M p (Unit {0})
  boot_resumed fuel ws ceiling = do
    step_set_state ws.id WorkspaceState.stopped (some (some (lit "resuming"))) no_patch
    found ← step_resume_sandbox ws.id ws.sandbox_name
    resumed ← some_or found (fatal (lit "sandbox_missing"))
    step_record_sandbox_session ws.id WorkspaceState.stopped (some (lit "boot:manifest"))
        resumed.hosts none (some (some resumed.cmd_id))
    t ← now
    wait_ready fuel (record {
      workspace_id = ws.id;
      health_host = resumed.hosts.health_host;
      sandbox_name = ws.sandbox_name;
      cmd_id = resumed.cmd_id;
      server_build = ws.server_build;
      deadline = t + get_or resume_ceiling_ms ceiling;
    })
    step_set_state ws.id WorkspaceState.running (some none) no_patch

  unfoldable pub connect_workspace : ℕ → ConnectWorkspaceRun → M p (Unit {0})
  unfolding boot_resumed
  connect_workspace fuel input =
      catch
        (do
          ws ← step_load_workspace input.workspace_id
          boot_resumed fuel ws input.ready_ceiling_ms
          when (not input.child) (step_finish_run ws.id done))
        (abandon input.workspace_id input.child)
