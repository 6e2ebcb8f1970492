-- ===== src/Steps/Sandbox.antt =====
-- apps/web/workflows/steps/sandbox-steps.ts: creating and resuming a sandbox.
use zedspaces.Base.{Bool, true, false, Text, lit, ◌++◌, Option, none, some, [], get_or}
use zedspaces.Schema.{Workspace}
use zedspaces.Effects.{
  Platform, M, ◌>>=◌, pure, catch, call, some_or, Error, fatal, sandbox_error, not_found,
  SandboxHandle, CreateSandboxInput,
}
use zedspaces.Steps.Db.{SessionHosts}
use zedspaces.Steps.Supervisor.{
  ResumedSandbox, Started, or_fail, get_handle, hosts_of, load_workspace_row, start_supervisor,
  is_running,
}

module _ {p : Platform} where
  unfoldable pub adopt_created : CreateSandboxInput → SandboxHandle → Bool → M p SandboxHandle
  adopt_created input h true = pure h
  adopt_created input h false = do
    resumed ← or_fail (get_handle input.name true)
    some_or resumed (fatal (lit "sandbox_missing:" ++ input.name))

  unfoldable pub step_create_sandbox : CreateSandboxInput → M p SessionHosts
  unfolding adopt_created
  step_create_sandbox input = do
    h ← or_fail (call (p.create input))
    live ← adopt_created input h (is_running h.status)
    hosts_of live

  -- Only a platform that knows no such command says that it is dead; an exit code says so too.
  unfoldable pub command_alive : SandboxHandle → Text → M p Bool
  command_alive h cmd =
      catch (do code ← call (p.wait_command h cmd 1000); pure false) (λ e. pure (alive_after e))
    where
      alive_after : Error → Bool
      alive_after (sandbox_error not_found again message) = false
      alive_after _ = true

  -- The `onResume` hook.
  unfoldable pub run_hook :
      Workspace → Option (SandboxHandle × Bool) → M p (Option (SandboxHandle × Option Started))
  run_hook ws none = pure none
  run_hook ws (some (h, false)) = pure (some (h, none))
  run_hook ws (some (h, true)) = do
    started ← start_supervisor h ws (lit "resume")
    pure (some (h, some started))

  abbrev pub reuse_if : SandboxHandle → Workspace → Text → Bool → M p Started
  reuse_if h ws cmd true =
      pure (record { cmd_id = cmd; token_generation = ws.sandbox_token_generation })
  reuse_if h ws cmd false = start_supervisor h ws (lit "resume")

  unfoldable pub reuse_or_start : SandboxHandle → Workspace → Option Text → M p Started
  reuse_or_start h ws none = start_supervisor h ws (lit "resume")
  reuse_or_start h ws (some cmd) = do alive ← command_alive h cmd; reuse_if h ws cmd alive

  unfoldable pub ensure_started : Text → SandboxHandle → Option Started → M p Started
  unfolding reuse_or_start
  ensure_started id h (some started) = pure started
  ensure_started id h none = do
    current ← load_workspace_row id
    reuse_or_start h current current.supervisor_cmd_id

  unfoldable pub resumed_with :
      Text → Option (SandboxHandle × Option Started) → M p (Option ResumedSandbox)
  unfolding ensure_started command_alive
  resumed_with id none = pure none
  resumed_with id (some (h, hook)) = do
    started ← ensure_started id h hook
    hosts ← hosts_of h
    pure (
        some (record {
          hosts = hosts;
          cmd_id = started.cmd_id;
          token_generation = started.token_generation;
        }))

  unfoldable pub step_resume_sandbox : Text → Text → M p (Option ResumedSandbox)
  unfolding run_hook
  step_resume_sandbox id name = do
    ws ← load_workspace_row id
    found ← or_fail (do hit ← call (p.get name true); run_hook ws hit)
    resumed_with id found

  abbrev pub session_of : Option SandboxHandle → M p (Option Text)
  session_of none = pure none
  session_of (some h) = pure (some (get_or [] h.current_session_id))

  unfoldable pub step_resume_sandbox_quiet : Text → M p (Option Text)
  step_resume_sandbox_quiet name = do found ← or_fail (get_handle name true); session_of found

  unfoldable pub step_start_supervisor : Text → Text → M p Started
  step_start_supervisor id name = do
    ws ← load_workspace_row id
    found ← or_fail (get_handle name false)
    h ← some_or found (fatal (lit "sandbox_missing:" ++ name))
    start_supervisor h ws (lit "start")
