-- ===== src/Workflows/Stop.antt =====
-- apps/web/workflows/stop-workspace.ts
use zedspaces.Base.{
  ℕ, zero, suc, ◌+◌, Bool, true, false, not, ◌&&◌, Text, lit, Option, none, some, ltb,
  if◌then◌else◌, ◌||◌,
}
use zedspaces.Schema.{Workspace, WorkspaceState, stopping, rebuilding}
use zedspaces.Health.{HealthProbe, HealthStatus}
use zedspaces.Effects.{Platform, M, ◌>>=◌, ◌>>◌, pure, catch, when, now, pause, hang, StopResult}
use zedspaces.Steps.Db.{
  no_patch, done, step_load_workspace, step_set_state, step_finish_run, step_mark_stopped,
  step_record_session_end,
}
use zedspaces.Steps.Commands.{
  step_probe_health, step_signal_supervisor, step_stop_sandbox, step_wait_for_command_exit,
}
use zedspaces.Workflows.Create.{abandon}

pub data StopReason : Type 0 where
  idle user cap rebuild delete abuse lost spend_cap : StopReason

abbrev pub reason_text : StopReason → Text
reason_text idle = lit "idle"
reason_text user = lit "user"
reason_text cap = lit "cap"
reason_text rebuild = lit "rebuild"
reason_text delete = lit "delete"
reason_text abuse = lit "abuse"
reason_text lost = lit "lost"
reason_text spend_cap = lit "spend_cap"

pub record StopWorkspaceRun : Type 0 where
  pub workspace_id : Text
  pub reason : StopReason
  pub child : Bool

abbrev pub is_stopped : WorkspaceState → Bool
is_stopped WorkspaceState.stopped = true
is_stopped _ = false

abbrev is_stopping : HealthStatus → Bool
is_stopping HealthStatus.stopping = true
is_stopping _ = false

abbrev pub has_shut_down : Option HealthProbe → Bool
has_shut_down none = true
has_shut_down (some h) = is_stopping h.status && not h.server_running

-- `input.reason === "rebuild" ? "rebuilding" : "stopped"`
abbrev pub state_after : StopReason → WorkspaceState
state_after rebuild = rebuilding
state_after _ = WorkspaceState.stopped

abbrev pub size_of : Option StopResult → Option ℕ
size_of none = none
size_of (some res) = res.snapshot_size_bytes

module _ {p : Platform} where
  unfoldable pub shutdown_round : ℕ → M p (Unit {0}) → Option HealthProbe → M p (Unit {0})
  shutdown_round deadline again health = do
    t ← now
    if has_shut_down health || ltb deadline t then pure tt else (do pause 2000; again)

  -- Polls the health until the supervisor has shut down, for 25 seconds at most.
  unfoldable pub wait_shutdown : ℕ → Text → Text → ℕ → M p (Unit {0})
  unfolding shutdown_round
  wait_shutdown zero id host deadline = hang
  wait_shutdown (suc fuel) id host deadline =
      let again = wait_shutdown fuel id host deadline in
      step_probe_health id host >>= λ health. shutdown_round deadline again health

  unfoldable pub await_supervisor : ℕ → Workspace → Option Text → Option Text → M p (Unit {0})
  await_supervisor fuel ws (some cmd) host = do
    exit ← step_wait_for_command_exit ws.sandbox_name cmd 25000
    pure tt
  await_supervisor fuel ws none (some host) = do t ← now; wait_shutdown fuel ws.id host (t + 25000)
  await_supervisor fuel ws none none = pure tt

  unfoldable pub shut_down : ℕ → Workspace → StopReason → M p (Unit {0})
  unfolding await_supervisor
  shut_down fuel ws reason = do
    step_set_state ws.id stopping (some (some (reason_text reason))) no_patch
    step_signal_supervisor ws.sandbox_name ws.supervisor_cmd_id
    await_supervisor fuel ws ws.supervisor_cmd_id ws.current_health_host
    res ← step_stop_sandbox ws.sandbox_name
    step_record_session_end ws.id (reason_text reason)
    step_mark_stopped ws.id (reason_text reason) (state_after reason) (some (size_of res))

  unfoldable pub stop_workspace : ℕ → StopWorkspaceRun → M p (Unit {0})
  unfolding shut_down
  stop_workspace fuel input =
      catch
        (do
          ws ← step_load_workspace input.workspace_id
          when (not (is_stopped ws.state)) (shut_down fuel ws input.reason)
          when (not input.child) (step_finish_run ws.id done))
        (abandon input.workspace_id input.child)
