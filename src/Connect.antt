-- ===== src/Connect.antt =====
-- apps/web/app/api/workspaces/[id]/connect/route.ts: a tab asks for a connection, after the viewer
-- and the budget of the request have been checked.
pub mod Request
pub mod Liveness
pub mod Reconnect
use zedspaces.Base.{
  ℕ, zero, suc, ◌+◌, Bool, true, false, not, ◌&&◌, ◌||◌, Text, text_eq, lit, ◌++◌, Option, none,
  some, List, [], ◌∷◌, leb, is_some, get_or, if◌then◌else◌,
}
use zedspaces.Schema.{
  Workspace, WorkspaceState, creating, stopping, rebuilding, deleting, Session, User, EditorRelease,
  same_release, builds_compatible, current_release, can_defer_upgrade,
}
use zedspaces.Health.{HealthProbe}
use zedspaces.Effects.{
  Platform, Op, M, ◌>>=◌, ◌>>◌, pure, throw, hang, when, call, now, pause, get_db, modify_db,
  some_or, Error, api_error, other,
}
use zedspaces.Effects.Table.{select_workspace}
use zedspaces.Lifecycle.{start_lifecycle, is_run_active, connect_workspace, rebuild_workspace}
use zedspaces.Sessions.{SessionInput, arbitrate_session, update_session}
use zedspaces.Sweep.Running.{says_running}
use zedspaces.Connect.Liveness.{
  SandboxLiveness, alive, unhealthy, dead, detect_dead_sandbox, mark_workspace_lost,
}
use zedspaces.Connect.Request.{
  ConnectReason, ConnectInput, ConnectInfo, ConnectAnswer, connected, upgrading, resuming,
  is_busy_state, is_reconnect, is_mismatch, is_named, release_of_row, is_flagged, resume_wait_ms,
  resume_poll_ms, is_resumed,
}

-- `sign` is what `mintSessionToken` (apps/web/lib/tokens.ts) gets from the signing library.
module _ {p : Platform} (sign : Workspace → Session → Text → Op p.State Text) where
  -- `mintConnectInfo`
  unfoldable pub mint_at : Workspace → Session → Option Text → M p ConnectInfo
  mint_at ws session (some (c ∷ host)) = do
    bytes ← call p.random
    token ← call (sign ws session (lit "con_" ++ bytes))
    modify_db (λ db. record db {
      sessions =
          update_session session.id
            (λ s. record s {
              tokens_minted = session.tokens_minted + 1;
              last_connect_id = some (lit "con_" ++ bytes);
            })
            db.sessions;
    })
    pure (record {
      host = c ∷ host;
      token = token;
      session_id = lit "con_" ++ bytes;
      workspace_id = ws.id;
      server_build = ws.server_build;
      client_build = ws.client_build;
      session_cap_at = get_or session.started_at ws.session_started_at + p.env.session_cap_ms;
      audience = ws.audience;
    })
  mint_at ws session _ = throw (api_error 500 (lit "sandbox_unhealthy"))

  -- `openOrReuseSession`, without a race for the session.
  unfoldable pub open_or_reuse_session : Workspace → SessionInput → M p Session
  open_or_reuse_session ws input = do
    bytes ← call p.random
    t ← now
    db ← get_db
    let (sessions, session) = arbitrate_session ws input (lit "ses_" ++ bytes) t db.sessions
    modify_db (λ d. record d { sessions = sessions })
    pure session

  unfoldable pub connect_ready :
      Workspace → HealthProbe → Text → ConnectInput → Option Text → M p ConnectAnswer
  unfolding mint_at open_or_reuse_session
  connect_ready ws probe user input (some (c ∷ host)) = do
    session ← open_or_reuse_session ws (record {
      user_id = user;
      tab_id = input.tab_id;
      host = c ∷ host;
      client_build = input.client_build;
      server_build = some (get_or ws.server_build probe.build);
    })
    info ← mint_at ws session ws.current_ws_host
    pure (connected info)
  connect_ready ws probe user input _ = throw (api_error 500 (lit "sandbox_unhealthy"))

  -- `connectRunning`
  unfoldable pub connect_running : Workspace → HealthProbe → Text → ConnectInput → M p ConnectAnswer
  unfolding connect_ready
  connect_running ws probe user input =
      if probe.ready
      then connect_ready ws probe user input ws.current_ws_host
      else throw (api_error 500 (lit "sandbox_unhealthy"))

  unfoldable pub assert_owner_not_flagged : Workspace → M p (Unit {0})
  assert_owner_not_flagged ws = do
    db ← get_db
    when (is_flagged ws.owner_user_id db.users) (throw (api_error 403 (lit "account_flagged")))

  -- The loop of `resume`: the row once it runs, none at the deadline.
  unfoldable pub wait_resumed : ℕ → Text → ℕ → M p (Option Workspace)
  wait_resumed zero id deadline = hang
  wait_resumed (suc fuel) id deadline = do
    current ← select_workspace id
    t ← now
    if is_resumed current
        then pure current
        else if leb deadline t
        then pure none
        else (do pause resume_poll_ms; wait_resumed fuel id deadline)

  unfoldable pub connect_resumed :
      Text → ConnectInput → Workspace → SandboxLiveness → M p ConnectAnswer
  unfolding connect_running
  connect_resumed user input ws (unhealthy probe) = throw (api_error 500 (lit "sandbox_unhealthy"))
  connect_resumed user input ws (dead reason) = throw (api_error 500 (lit "sandbox_unhealthy"))
  connect_resumed user input ws (alive probe) = connect_running ws probe user input

  unfoldable pub after_resume : Text → ConnectInput → Text → Option Workspace → M p ConnectAnswer
  unfolding connect_resumed
  after_resume user input run_id none = pure (resuming run_id)
  after_resume user input run_id (some ws) = do
    liveness ← detect_dead_sandbox ws
    connect_resumed user input ws liveness

  -- A stopped workspace: an explicit open resumes it, a reconnect does not.
  unfoldable pub connect_stopped : Text → ConnectInput → Workspace → M p ConnectAnswer
  unfolding assert_owner_not_flagged wait_resumed after_resume
  connect_stopped user input ws =
      if is_reconnect input.reason then throw (api_error 409 (lit "workspace_stopped")) else (do
        assert_owner_not_flagged ws
        run_id ← start_lifecycle ws.id connect_workspace
        t ← now
        live ← wait_resumed 32 ws.id (t + resume_wait_ms)
        after_resume user input run_id live)

  unfoldable pub connect_live :
      Text → ConnectInput → Workspace → SandboxLiveness → M p ConnectAnswer
  unfolding connect_running connect_stopped
  connect_live user input ws (alive probe) = connect_running ws probe user input
  connect_live user input ws (unhealthy probe) = throw (api_error 500 (lit "sandbox_unhealthy"))
  connect_live user input ws (dead reason) = do
    live ← mark_workspace_lost ws reason
    if says_running live.state
        then throw (api_error 500 (lit "sandbox_unhealthy"))
        else connect_stopped user input live

  unfoldable pub connect_now : Text → ConnectInput → Workspace → M p ConnectAnswer
  unfolding connect_live connect_stopped
  connect_now user input ws =
      if is_mismatch input.client_build ws.client_build
      then throw (api_error 409 (lit "client_build_mismatch"))
      else if says_running ws.state
      then (do liveness ← detect_dead_sandbox ws; connect_live user input ws liveness)
      else connect_stopped user input ws

  unfoldable pub connect_upgraded :
      Text → ConnectInput → Workspace → EditorRelease → M p ConnectAnswer
  unfolding connect_now assert_owner_not_flagged
  connect_upgraded user input ws release =
      if is_mismatch input.client_build release.client_build
      then throw (api_error 409 (lit "client_build_mismatch"))
      else if not (same_release (release_of_row ws) release) || is_named ws.previous_sandbox_name
      then (do
        assert_owner_not_flagged ws
        run_id ← start_lifecycle ws.id rebuild_workspace
        pure (upgrading run_id))
      else connect_now user input ws

  unfoldable pub connect_idle : Text → ConnectInput → Workspace → M p ConnectAnswer
  unfolding connect_upgraded connect_now
  connect_idle user input ws =
      if not (is_reconnect input.reason)
        && (not (can_defer_upgrade p.env ws.client_build) || is_named ws.previous_sandbox_name)
      then (do
        release ← some_or (current_release p.env) (other (lit "EnvError"))
        connect_upgraded user input ws release)
      else connect_now user input ws

  -- `POST`, for the workspace that the request names.
  unfoldable pub post_connect : Text → ConnectInput → Workspace → M p ConnectAnswer
  unfolding connect_idle
  post_connect user input ws = do
    active ← is_run_active ws.workflow_run_id
    if active || is_busy_state ws.state
        then throw (api_error 423 (lit "workspace_busy"))
        else connect_idle user input ws
