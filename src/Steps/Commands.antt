-- ===== src/Steps/Commands.antt =====
-- apps/web/workflows/steps/sandbox-steps.ts: probing, signalling, stopping and deleting a sandbox.
use zedspaces.Base.{
  ℕ, Bool, true, false, not, ◌&&◌, Text, text_eq, lit, ◌++◌, Option, none, some, List, [], ◌∷◌, any,
  if◌then◌else◌, pos,
}
use zedspaces.Schema.{Workspace, WorkspaceState}
use zedspaces.Health.{HealthProbe, probe_health}
use zedspaces.Effects.{
  Platform, M, ◌>>=◌, ◌>>◌, pure, when, call, now, note_removal, Removal, SandboxHandle,
  SandboxStatus, SandboxUsage, StopResult,
}
use zedspaces.Effects.Table.{select_workspace, update_workspace}
use zedspaces.Steps.Db.{env_tag}
use zedspaces.Steps.Supervisor.{or_fail, or_else, get_handle, is_running, is_gone}

-- What `stepPeekSandbox` tells of a sandbox, its end as an instant.
pub record SandboxPeek : Type 0 where
  pub status : SandboxStatus
  pub expires_at : Option ℕ

abbrev peeked : Option SandboxHandle → Option SandboxPeek
peeked none = none
peeked (some h) = some (record { status = h.status; expires_at = h.expires_at })

unfoldable pub boot_reason : Text → ℕ → Workspace → Workspace
boot_reason reason t r = record r { state_reason = some reason; updated_at = t }

abbrev is_running_state : WorkspaceState → Bool
is_running_state WorkspaceState.running = true
is_running_state _ = false

abbrev is_reason : Option Text → Text → Bool
is_reason none reason = false
is_reason (some s) reason = text_eq s reason

abbrev pub zero_usage : SandboxUsage
zero_usage = record { active_cpu_duration_ms = 0; ingress_bytes = 0; egress_bytes = 0 }

abbrev is_live : SandboxStatus → Bool
is_live SandboxStatus.running = true
is_live SandboxStatus.pending = true
is_live _ = false

abbrev pub is_snapshotting : SandboxStatus → Bool
is_snapshotting SandboxStatus.snapshotting = true
is_snapshotting _ = false

-- The names that the platform lists and the database does not know.
unfoldable pub orphans_of : List Text → List (Text × SandboxStatus) → List Text
orphans_of known [] = []
orphans_of known ((name, status) ∷ rest) =
    let more = orphans_of known rest in
    if any (text_eq name) known then more else if is_snapshotting status then more else name ∷ more

module _ {p : Platform} where
  unfoldable pub write_reason : Text → Text → Option Workspace → M p (Unit {0})
  unfolding boot_reason
  write_reason id reason none = pure tt
  write_reason id reason (some r) =
      when (not (is_running_state r.state) && not (is_reason r.state_reason reason))
        (do t ← now; update_workspace id (boot_reason reason t))

  unfoldable pub note_phase : Text → Option HealthProbe → M p (Unit {0})
  unfolding write_reason
  note_phase id none = pure tt
  note_phase id (some probe) = do
    row ← select_workspace id
    write_reason id (lit "boot:" ++ probe.phase) row

  unfoldable pub step_probe_health : Text → Text → M p (Option HealthProbe)
  unfolding note_phase
  step_probe_health id host = do probe ← probe_health host; note_phase id probe; pure probe

  unfoldable pub signal : Option SandboxHandle → Text → M p (Unit {0})
  signal none cmd = pure tt
  signal (some h) cmd = when (is_running h.status) (or_else (call (p.kill_command h cmd)) tt)

  unfoldable pub step_signal_supervisor : Text → Option Text → M p (Unit {0})
  unfolding signal
  step_signal_supervisor name none = pure tt
  step_signal_supervisor name (some cmd) = do
    found ← or_else (get_handle name false) none
    signal found cmd

  unfoldable pub step_peek_sandbox : Text → M p (Option SandboxPeek)
  step_peek_sandbox name = do found ← or_else (get_handle name false) none; pure (peeked found)

  unfoldable extend_if : Option SandboxHandle → ℕ → M p (Unit {0})
  extend_if none ms = pure tt
  extend_if (some h) ms = when (is_running h.status) (call (p.extend_timeout h (pos ms)))

  unfoldable pub step_extend_timeout : Text → ℕ → M p (Unit {0})
  unfolding extend_if
  step_extend_timeout name ms = do found ← or_else (get_handle name false) none; extend_if found ms

  abbrev pub wait_if : SandboxHandle → Text → ℕ → Bool → M p (Option ℕ)
  wait_if h cmd ms true = or_else (do code ← call (p.wait_command h cmd ms); pure (some code)) none
  wait_if h cmd ms false = pure none

  unfoldable pub wait_on : Option SandboxHandle → Text → ℕ → M p (Option ℕ)
  wait_on none cmd ms = pure none
  wait_on (some h) cmd ms = wait_if h cmd ms (is_running h.status)

  unfoldable pub step_wait_for_command_exit : Text → Text → ℕ → M p (Option ℕ)
  unfolding wait_on
  step_wait_for_command_exit name cmd ms = do
    found ← or_else (get_handle name false) none
    wait_on found cmd ms

  abbrev pub stop_if : SandboxHandle → Bool → M p (Option StopResult)
  stop_if h true = pure (some (record { snapshot_size_bytes = none; usage = zero_usage }))
  stop_if h false = do res ← call (p.stop h); pure (some res)

  unfoldable pub stop_found : Option SandboxHandle → M p (Option StopResult)
  stop_found none = pure none
  stop_found (some h) = stop_if h (is_gone h.status)

  unfoldable pub step_stop_sandbox : Text → M p (Option StopResult)
  unfolding stop_found
  step_stop_sandbox name = do found ← or_fail (get_handle name false); stop_found found

  abbrev pub discard_at : SandboxHandle → SandboxStatus → M p (Option SandboxUsage)
  discard_at h SandboxStatus.stopped = pure (some zero_usage)
  discard_at h _ = do res ← call (p.stop h); pure (some res.usage)

  unfoldable pub discard : Option SandboxHandle → M p (Option SandboxUsage)
  discard none = pure none
  discard (some h) = discard_at h h.status

  unfoldable pub step_stop_sandbox_discard : Text → M p (Option SandboxUsage)
  unfolding discard
  step_stop_sandbox_discard name = do found ← or_fail (get_handle name false); discard found

  unfoldable pub delete_snapshots : List Text → M p (Unit {0})
  delete_snapshots [] = pure tt
  delete_snapshots (id ∷ ids) = do or_else (call (p.delete_snapshot id)) tt; delete_snapshots ids

  -- Stops, deletes the snapshots, deletes: from here the files of `name` are gone.
  unfoldable pub destroy : Text → Option SandboxHandle → M p (Unit {0})
  unfolding delete_snapshots
  destroy name none = pure tt
  destroy name (some h) = do
    note_removal (Removal.sandbox name)
    when (is_live h.status) (do
      res ← or_else (call (p.stop h)) (record { snapshot_size_bytes = none; usage = zero_usage })
      pure tt)
    ids ← or_else (call (p.list_snapshot_ids h)) []
    delete_snapshots ids
    or_else (call (p.delete h)) tt

  -- Every caller passes `deleteSnapshots: true`.
  unfoldable pub step_delete_sandbox : Text → M p (Unit {0})
  unfolding destroy
  step_delete_sandbox name = do found ← or_else (get_handle name false) none; destroy name found

  unfoldable pub step_delete_blob : Text → M p (Unit {0})
  step_delete_blob pathname = do
    note_removal (Removal.blob pathname)
    or_else (call (p.del_blob pathname)) tt

  unfoldable pub step_list_orphan_sandboxes : List Text → M p (List Text)
  step_list_orphan_sandboxes known = do
    listed ← call (p.list_by_tag (env_tag p.env))
    pure (orphans_of known listed)
