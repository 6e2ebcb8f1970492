-- ===== src/Workflows/Rebuild.antt =====
-- apps/web/workflows/rebuild-workspace.ts
use zedspaces.Base.{
  ℕ, zero, suc, ◌+◌, ◌==◌, Bool, true, false, not, ◌&&◌, Text, lit, ◌++◌, Option, none, some,
  is_some, decimal, ltb, if◌then◌else◌,
}
use zedspaces.Schema.{
  Workspace, WorkspaceState, rebuilding, RestoreKind, tarball, EditorRelease, same_release,
}
use zedspaces.Effects.{
  Platform, M, ◌>>=◌, ◌>>◌, pure, throw, catch, when, now, pause, hang, some_or, fatal,
}
use zedspaces.Steps.Db.{
  WorkspacePatch, no_patch, done, step_load_workspace, step_current_release, step_set_state,
  step_set_release, step_finish_run, step_record_session_end, step_bump_generation,
}
use zedspaces.Steps.Sandbox.{step_resume_sandbox_quiet}
use zedspaces.Steps.Commands.{
  step_delete_sandbox, step_delete_blob, step_stop_sandbox_discard, step_wait_for_command_exit,
}
use zedspaces.Steps.Archive.{step_start_archive, step_finish_archive}
use zedspaces.Workflows.Child.{run_child}
use zedspaces.Workflows.Create.{create_workspace, abandon}
use zedspaces.Workflows.Stop.{StopReason, stop_workspace, is_stopped}

pub record RebuildWorkspaceRun : Type 0 where
  pub workspace_id : Text
  pub upgrade : Option EditorRelease

abbrev archive_ceiling_ms : ℕ
archive_ceiling_ms = 1200000

-- What the new generation replaces: the old sandbox and the archive made of it.
pub record Backup : Type 0 where
  pub sandbox_name : Text
  pub blob_pathname : Text

-- Both recovery pointers, cleared together.
abbrev pub cleared_pointers : WorkspacePatch
cleared_pointers = record no_patch {
  previous_sandbox_name = some none;
  restore_blob_pathname = some none;
}

abbrev pub release_of : Workspace → EditorRelease
release_of ws = record {
  image_ref = ws.image_ref;
  server_build = ws.server_build;
  client_build = ws.client_build;
}

-- `input.upgrade && sameRelease(ws, release) && !ws.previousSandboxName`. A sandbox name is never
-- empty.
abbrev is_upgraded : Option EditorRelease → Workspace → EditorRelease → Bool
is_upgraded upgrade ws release =
    is_some upgrade
    && same_release (release_of ws) release
    && not (is_some ws.previous_sandbox_name)

module _ {p : Platform} where
  unfoldable pub archive_exit : ℕ → M p (Unit {0}) → Option ℕ → M p (Unit {0})
  archive_exit deadline again (some code) =
      if code == 0 then pure tt else throw (fatal (lit "archive_failed:" ++ decimal code))
  archive_exit deadline again none = do
    t ← now
    if ltb deadline t then throw (fatal (lit "archive_timeout")) else (do pause 5000; again)

  unfoldable pub wait_archive : ℕ → Text → Text → ℕ → M p (Unit {0})
  unfolding archive_exit
  wait_archive zero name cmd deadline = hang
  wait_archive (suc fuel) name cmd deadline =
      let again = wait_archive fuel name cmd deadline in
      step_wait_for_command_exit name cmd 30000 >>= λ exit. archive_exit deadline again exit

  unfoldable pub archive_generation : ℕ → Text → Text → M p Text
  archive_generation fuel name id = do
    cmd ← step_start_archive name
    t ← now
    wait_archive fuel name cmd (t + archive_ceiling_ms)
    step_finish_archive name id

  pick_release : Option EditorRelease → M p EditorRelease
  pick_release none = step_current_release
  pick_release (some release) = pure release

  -- A generation bump is pending from a failed rebuild.
  unfoldable pub retry_with :
      Workspace → Text → EditorRelease → RestoreKind → Option Text → M p Backup
  retry_with ws previous release tarball (some pathname) = do
    step_set_state ws.id rebuilding (some (some (lit "retry"))) no_patch
    step_delete_sandbox ws.sandbox_name
    step_set_release ws.id release
    pure (record { sandbox_name = previous; blob_pathname = pathname })
  retry_with ws previous release _ _ = throw (fatal (lit "rebuild_pointers_inconsistent"))

  -- Stops the workspace, archives its files and discards its session.
  unfoldable pub secure_current : ℕ → Workspace → M p Text
  secure_current fuel ws = do
    when (not (is_stopped ws.state)) (
        run_child fuel (lit "stopWorkspace") (
          stop_workspace fuel
            (record { workspace_id = ws.id; reason = StopReason.rebuild; child = true })))
    step_set_state ws.id rebuilding (some (some (lit "archive"))) no_patch
    found ← step_resume_sandbox_quiet ws.sandbox_name
    resumed ← some_or found (fatal (lit "sandbox_missing:" ++ ws.sandbox_name))
    pathname ← archive_generation fuel ws.sandbox_name ws.id
    usage ← step_stop_sandbox_discard ws.sandbox_name
    step_record_session_end ws.id (lit "rebuild")
    pure pathname

  unfoldable pub archive_current : ℕ → Workspace → EditorRelease → M p Backup
  archive_current fuel ws release = do
    pathname ← secure_current fuel ws
    bump ← step_bump_generation ws.id pathname release
    pure (record { sandbox_name = bump.old_sandbox_name; blob_pathname = pathname })

  -- Up to the creation of the new generation.
  unfoldable pub prepare : ℕ → Workspace → EditorRelease → Option Text → M p Backup
  unfolding retry_with
  prepare fuel ws release none = archive_current fuel ws release
  prepare fuel ws release (some previous) =
      retry_with ws previous release ws.restore_kind ws.restore_blob_pathname

  unfoldable pub create_child : ℕ → Text → M p (Unit {0})
  create_child fuel id =
      run_child fuel (lit "createWorkspace") (
        create_workspace fuel (record { workspace_id = id; child = true; ready_ceiling_ms = none }))

  -- Only now is the new generation healthy.
  unfoldable pub discard_old : Text → Backup → M p (Unit {0})
  discard_old id backup = do
    step_delete_sandbox backup.sandbox_name
    step_set_state id WorkspaceState.running (some none) cleared_pointers
    step_delete_blob backup.blob_pathname

  -- Up to the health of the new generation.
  unfoldable pub stand_up : ℕ → Workspace → EditorRelease → M p Backup
  stand_up fuel ws release = do
    backup ← prepare fuel ws release ws.previous_sandbox_name
    create_child fuel ws.id
    pure backup

  unfoldable pub replace_generation : ℕ → Workspace → EditorRelease → M p (Unit {0})
  replace_generation fuel ws release = do
    backup ← stand_up fuel ws release
    discard_old ws.id backup

  unfoldable pub rebuild_unless_upgraded : ℕ → Workspace → Option EditorRelease → M p (Unit {0})
  unfolding pick_release
  rebuild_unless_upgraded fuel ws upgrade = do
    release ← pick_release upgrade
    when (not (is_upgraded upgrade ws release)) (replace_generation fuel ws release)

  unfoldable pub rebuild_workspace : ℕ → RebuildWorkspaceRun → M p (Unit {0})
  rebuild_workspace fuel input =
      catch
        (do
          ws ← step_load_workspace input.workspace_id
          rebuild_unless_upgraded fuel ws input.upgrade
          step_finish_run ws.id done)
        (abandon input.workspace_id false)
