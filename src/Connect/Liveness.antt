-- ===== src/Connect/Liveness.antt =====
-- apps/web/lib/connect.ts: whether a row that says `running` has a sandbox behind it, and what
-- becomes of one that has none.
use zedspaces.Base.{
  ℕ, zero, suc, Bool, true, false, Text, lit, ◌++◌, Option, none, some, ◌∷◌, get_or, if◌then◌else◌,
}
use zedspaces.Schema.{Workspace, stopped}
use zedspaces.Health.{HealthProbe, probe_health}
use zedspaces.Effects.{
  Platform, M, ◌>>=◌, ◌>>◌, pure, catch, now, pause, SandboxHandle, SandboxStatus,
}
use zedspaces.Effects.Table.{select_workspace, update_workspace}
use zedspaces.Sessions.{close_open_session}
use zedspaces.Steps.Supervisor.{get_handle}
use zedspaces.Sweep.Running.{says_running}

-- `DEAD_SANDBOX_HEALTH_ATTEMPTS`, and the default of `DEAD_SANDBOX_HEALTH_PAUSE_MS`
abbrev pub health_attempts : ℕ
health_attempts = 3

abbrev pub health_pause_ms : ℕ
health_pause_ms = 500

-- `SandboxLiveness`
pub data SandboxLiveness : Type 0 where
  alive : HealthProbe → SandboxLiveness
  unhealthy : HealthProbe → SandboxLiveness
  dead : Text → SandboxLiveness

-- `undefined` where the read of the handle throws.
pub data Seen : Type 0 where
  unread : Seen
  missing : Seen
  found : SandboxHandle → Seen

abbrev pub seen_of : Option SandboxHandle → Seen
seen_of none = missing
seen_of (some h) = found h

abbrev pub sandbox_status_text : SandboxStatus → Text
sandbox_status_text SandboxStatus.pending = lit "pending"
sandbox_status_text SandboxStatus.running = lit "running"
sandbox_status_text SandboxStatus.stopping = lit "stopping"
sandbox_status_text SandboxStatus.stopped = lit "stopped"
sandbox_status_text SandboxStatus.failed = lit "failed"
sandbox_status_text SandboxStatus.aborted = lit "aborted"
sandbox_status_text SandboxStatus.snapshotting = lit "snapshotting"

abbrev pub may_answer : SandboxStatus → Bool
may_answer SandboxStatus.running = true
may_answer SandboxStatus.pending = true
may_answer _ = false

abbrev pub latest : Option HealthProbe → Option HealthProbe → Option HealthProbe
latest none answered = answered
latest (some probe) answered = some probe

abbrev pub unready : Seen → Option HealthProbe → SandboxLiveness
unready seen (some answered) = unhealthy answered
unready missing none = dead (lit "sandbox_missing")
unready seen none = dead (lit "health_unreachable")

-- The verdict after the probes: the last one, the last that was answered.
abbrev pub verdict : Seen → Option HealthProbe → Option HealthProbe → SandboxLiveness
verdict seen none answered = unready seen answered
verdict seen (some probe) answered = if probe.ready then alive probe else unready seen answered

abbrev pub is_ready : Option HealthProbe → Bool
is_ready none = false
is_ready (some probe) = probe.ready

unfoldable pub lost : Text → ℕ → Workspace → Workspace
lost reason t r =
    if says_running r.state
    then record r {
      state = stopped;
      state_reason = some (lit "lost:" ++ reason);
      last_stopped_at = some t;
      current_ws_host = none;
      current_slot_hosts = none;
      current_health_host = none;
      supervisor_cmd_id = none;
      sandbox_expires_at = none;
      updated_at = t;
    }
    else r

module _ {p : Platform} where
  -- The rounds of probes that are left, after the first.
  unfoldable pub probe_again :
      ℕ
      → Text
      → Option HealthProbe
      → Option HealthProbe
      → M p (Option HealthProbe × Option HealthProbe)
  probe_again zero host probe answered = pure (probe, answered)
  probe_again (suc n) host probe answered = if is_ready probe then pure (probe, answered) else (do
    pause health_pause_ms
    next ← probe_health host
    probe_again n host next (latest next answered))

  unfoldable pub probe_seen : Text → Seen → M p SandboxLiveness
  unfolding probe_again
  probe_seen host seen = do
    first ← probe_health host
    probes ← probe_again 2 host first (latest first none)
    pure (verdict seen probes.0 probes.1)

  unfoldable pub judge : Text → Seen → M p SandboxLiveness
  unfolding probe_seen
  judge host (found h) =
      if may_answer h.status
      then probe_seen host (found h)
      else pure (dead (lit "sandbox_" ++ sandbox_status_text h.status))
  judge host seen = probe_seen host seen

  unfoldable pub detect_at : Workspace → Option Text → Option Text → M p SandboxLiveness
  unfolding judge
  detect_at ws (some (c ∷ s)) (some (d ∷ host)) = do
    seen ← catch (do h ← get_handle ws.sandbox_name false; pure (seen_of h)) (λ e. pure unread)
    judge (d ∷ host) seen
  detect_at ws _ _ = pure (dead (lit "no_session"))

  -- `detectDeadSandbox`
  unfoldable pub detect_dead_sandbox : Workspace → M p SandboxLiveness
  unfolding detect_at
  detect_dead_sandbox ws = detect_at ws ws.current_ws_host ws.current_health_host

  -- `markWorkspaceLost`
  unfoldable pub mark_workspace_lost : Workspace → Text → M p Workspace
  unfolding lost
  mark_workspace_lost ws reason = do
    t ← now
    close_open_session ws.id (lit "sandbox_lost")
    update_workspace ws.id (lost reason t)
    row ← select_workspace ws.id
    pure (get_or (record ws { state = stopped }) row)
