-- ===== src/Steps/Db.antt =====
-- apps/web/workflows/steps/db-steps.ts: the steps that write a workspace's row. Each step is one
-- read or one update of the row; a patch field is `none` where the source's is `undefined`.
use zedspaces.Base.{
  ℕ, ◌+◌, ◌*◌, Text, lit, Option, none, some, List, [], ◌∷◌, take, get_or, not, filter, text_eq,
  ◌++◌,
}
use zedspaces.Schema.{
  region_text, Workspace, WorkspaceState, deleting, MachineType, vcpu2, vcpu4, vcpu8, vcpu32,
  RestoreKind, tarball, Env, EditorRelease, current_release, proxy_slots, new_sandbox_name,
  VercelEnv, production, preview, development,
}
use zedspaces.Effects.{
  allow_all, Platform, M, ◌>>=◌, ◌>>◌, pure, throw, now, modify_db, some_or, fatal, other,
  CreateSandboxInput,
}
use zedspaces.Effects.Table.{select_workspace, update_workspace}
use zedspaces.Sessions.{close_open_session}

abbrev pub day_ms : ℕ
day_ms = 86400000

module _ {p : Platform} where
  abbrev pub unless_deleted : Text → Option ℕ → Workspace → M p Workspace
  unless_deleted id none ws = pure ws
  unless_deleted id (some t) ws = throw (fatal (lit "workspace_missing:" ++ id))

  -- A missing or deleted row is fatal.
  abbrev pub present : Text → Option Workspace → M p Workspace
  present id none = throw (fatal (lit "workspace_missing:" ++ id))
  present id (some ws) = unless_deleted id ws.deleted_at ws

-- `WorkspacePatch`
pub record WorkspacePatch : Type 0 where
  pub current_ws_host : Option (Option Text)
  pub current_slot_hosts : Option (Option (List (ℕ × Text)))
  pub current_health_host : Option (Option Text)
  pub current_sandbox_session_id : Option (Option Text)
  pub session_started_at : Option (Option ℕ)
  pub sandbox_expires_at : Option (Option ℕ)
  pub supervisor_cmd_id : Option (Option Text)
  pub restore_kind : Option RestoreKind
  pub restore_blob_pathname : Option (Option Text)
  pub previous_sandbox_name : Option (Option Text)
  pub last_stopped_at : Option (Option ℕ)
  pub retention_until : Option (Option ℕ)
  pub retention_warned_at : Option (Option ℕ)

abbrev pub no_patch : WorkspacePatch
no_patch = record {
  current_ws_host = none;
  current_slot_hosts = none;
  current_health_host = none;
  current_sandbox_session_id = none;
  session_started_at = none;
  sandbox_expires_at = none;
  supervisor_cmd_id = none;
  restore_kind = none;
  restore_blob_pathname = none;
  previous_sandbox_name = none;
  last_stopped_at = none;
  retention_until = none;
  retention_warned_at = none;
}

-- The `set` of `stepSetState`.
unfoldable pub with_state :
    WorkspaceState → Option (Option Text) → WorkspacePatch → ℕ → Workspace → Workspace
with_state state reason patch t r = record r {
  state = state;
  state_reason = get_or r.state_reason reason;
  current_ws_host = get_or r.current_ws_host patch.current_ws_host;
  current_slot_hosts = get_or r.current_slot_hosts patch.current_slot_hosts;
  current_health_host = get_or r.current_health_host patch.current_health_host;
  current_sandbox_session_id = get_or r.current_sandbox_session_id patch.current_sandbox_session_id;
  session_started_at = get_or r.session_started_at patch.session_started_at;
  sandbox_expires_at = get_or r.sandbox_expires_at patch.sandbox_expires_at;
  supervisor_cmd_id = get_or r.supervisor_cmd_id patch.supervisor_cmd_id;
  restore_kind = get_or r.restore_kind patch.restore_kind;
  restore_blob_pathname = get_or r.restore_blob_pathname patch.restore_blob_pathname;
  previous_sandbox_name = get_or r.previous_sandbox_name patch.previous_sandbox_name;
  last_stopped_at = get_or r.last_stopped_at patch.last_stopped_at;
  retention_until = get_or r.retention_until patch.retention_until;
  retention_warned_at = get_or r.retention_warned_at patch.retention_warned_at;
  updated_at = t;
}

-- `RunOutcome`
pub data RunOutcome : Type 0 where
  done : RunOutcome
  failed : Text → Option WorkspaceState → RunOutcome

unfoldable pub finished : RunOutcome → ℕ → Workspace → Workspace
finished done t r = record r {
  workflow_run_id = none;
  workflow_run_started_at = none;
  updated_at = t;
}
finished (failed error state) t r = record r {
  workflow_run_id = none;
  workflow_run_started_at = none;
  state = get_or WorkspaceState.error state;
  state_reason = some (take 500 error);
  updated_at = t;
}

-- `SessionHostsPatch`
pub record SessionHosts : Type 0 where
  pub rpc_host : Text
  pub health_host : Text
  pub slot_hosts : List (ℕ × Text)
  pub session_id : Text
  pub expires_at : Option ℕ

unfoldable pub with_session :
    WorkspaceState
    → Option Text
    → SessionHosts
    → Option RestoreKind
    → Option (Option Text)
    → ℕ
    → Workspace
    → Workspace
with_session state reason hosts kind cmd t r = record r {
  state = state;
  state_reason = reason;
  current_ws_host = some hosts.rpc_host;
  current_health_host = some hosts.health_host;
  current_slot_hosts = some hosts.slot_hosts;
  current_sandbox_session_id = some hosts.session_id;
  session_started_at = some t;
  last_active_at = t;
  sandbox_expires_at = hosts.expires_at;
  restore_kind = get_or r.restore_kind kind;
  supervisor_cmd_id = get_or r.supervisor_cmd_id cmd;
  updated_at = t;
}

unfoldable pub marked_stopped :
    Text → WorkspaceState → Option (Option ℕ) → ℕ → ℕ → Workspace → Workspace
marked_stopped reason state size days t r = record r {
  state = state;
  state_reason = some reason;
  last_stopped_at = some t;
  retention_until = some (t + days * day_ms);
  retention_warned_at = none;
  current_ws_host = none;
  current_slot_hosts = none;
  current_health_host = none;
  supervisor_cmd_id = none;
  sandbox_expires_at = none;
  snapshot_size_bytes = get_or r.snapshot_size_bytes size;
  updated_at = t;
}

unfoldable pub with_release : EditorRelease → ℕ → Workspace → Workspace
with_release release t r = record r {
  image_ref = release.image_ref;
  server_build = release.server_build;
  client_build = release.client_build;
  updated_at = t;
}

-- The `set` of `stepBumpGeneration`; `ws` is the row that it read.
unfoldable pub bumped : Workspace → Text → Text → EditorRelease → ℕ → Workspace → Workspace
bumped ws name blob_pathname release t r = record r {
  sandbox_generation = ws.sandbox_generation + 1;
  sandbox_name = name;
  audience = name;
  previous_sandbox_name = some ws.sandbox_name;
  restore_kind = tarball;
  restore_blob_pathname = some blob_pathname;
  image_ref = release.image_ref;
  server_build = release.server_build;
  client_build = release.client_build;
  supervisor_cmd_id = none;
  current_ws_host = none;
  current_slot_hosts = none;
  current_health_host = none;
  current_sandbox_session_id = none;
  sandbox_expires_at = none;
  snapshot_size_bytes = none;
  updated_at = t;
}

unfoldable pub purged : ℕ → Workspace → Workspace
purged t r = record r {
  deleted_at = some t;
  state = deleting;
  state_reason = none;
  current_ws_host = none;
  current_slot_hosts = none;
  current_health_host = none;
  supervisor_cmd_id = none;
  sandbox_token_hash = none;
  snapshot_size_bytes = none;
  updated_at = t;
}

-- `GenerationBump`
pub record GenerationBump : Type 0 where
  pub old_sandbox_name : Text
  pub new_sandbox_name : Text
  pub generation : ℕ

-- `MACHINES[machine].vcpus` (apps/web/lib/plans.ts)
abbrev pub vcpus_of : MachineType → ℕ
vcpus_of vcpu2 = 2
vcpus_of vcpu4 = 4
vcpus_of vcpu8 = 8
vcpus_of vcpu32 = 32

unfoldable pub env_tag : Env → Text
env_tag e = tag_of e.vercel_env
  where
    tag_of : Option VercelEnv → Text
    tag_of none = lit "development"
    tag_of (some production) = lit "production"
    tag_of (some preview) = lit "preview"
    tag_of (some development) = lit "development"

module _ {p : Platform} where
  unfoldable pub step_load_workspace : Text → M p Workspace
  step_load_workspace id = do row ← select_workspace id; present id row

  unfoldable pub step_set_state :
      Text → WorkspaceState → Option (Option Text) → WorkspacePatch → M p (Unit {0})
  step_set_state id state reason patch = do
    t ← now
    update_workspace id (with_state state reason patch t)

  unfoldable pub step_finish_run : Text → RunOutcome → M p (Unit {0})
  step_finish_run id outcome = do t ← now; update_workspace id (finished outcome t)

  unfoldable pub step_pick_image : Text → M p Text
  step_pick_image id = do
    row ← select_workspace id
    ws ← some_or row (fatal (lit "workspace_missing:" ++ id))
    pure ws.image_ref

  unfoldable pub step_build_create_input : Text → Text → M p CreateSandboxInput
  step_build_create_input id image = do
    row ← select_workspace id
    ws ← some_or row (fatal (lit "workspace_missing:" ++ id))
    pure (record {
      name = ws.sandbox_name;
      region = ws.region;
      vcpus = vcpus_of ws.machine;
      ports = p.env.rpc_port ∷ proxy_slots ++ p.env.health_port ∷ [];
      timeout_ms = p.env.session_timeout_ms;
      image = some image;
      source = none;
      env =
          (lit "ZS_WORKSPACE_ID", ws.id)
          ∷ (lit "ZS_SANDBOX_NAME", ws.sandbox_name)
          ∷ (lit "ZS_REGION", region_text ws.region)
          ∷ [];
      network_policy = allow_all;
      tags = (lit "zs", env_tag p.env) ∷ (lit "ws", ws.id) ∷ (lit "owner", ws.owner_user_id) ∷ [];
      persistent = none;
      snapshot_expiration_ms = some (p.env.retention_days * day_ms);
      keep_last_snapshots = some 1;
    })

  unfoldable pub step_record_sandbox_session :
      Text
      → WorkspaceState
      → Option Text
      → SessionHosts
      → Option RestoreKind
      → Option (Option Text)
      → M p (Unit {0})
  step_record_sandbox_session id state reason hosts kind cmd = do
    t ← now
    update_workspace id (with_session state reason hosts kind cmd t)

  unfoldable pub step_mark_stopped :
      Text → Text → WorkspaceState → Option (Option ℕ) → M p (Unit {0})
  step_mark_stopped id reason state size = do
    t ← now
    update_workspace id (marked_stopped reason state size p.env.retention_days t)

  unfoldable pub step_record_session_end : Text → Text → M p (Unit {0})
  step_record_session_end id reason = close_open_session id reason

  unfoldable pub step_current_release : M p EditorRelease
  step_current_release = some_or (current_release p.env) (other (lit "EnvError"))

  unfoldable pub step_set_release : Text → EditorRelease → M p (Unit {0})
  step_set_release id release = do t ← now; update_workspace id (with_release release t)

  -- A pending bump is refused.
  unfoldable pub bump_row :
      Text → Text → EditorRelease → Workspace → Option Text → M p GenerationBump
  bump_row id blob_pathname release ws (some name) =
      throw (fatal (lit "generation_bump_pending:" ++ name))
  bump_row id blob_pathname release ws none = do
    t ← now
    let name = new_sandbox_name p.env ws.id (ws.sandbox_generation + 1)
    update_workspace id (bumped ws name blob_pathname release t)
    pure (record {
      old_sandbox_name = ws.sandbox_name;
      new_sandbox_name = name;
      generation = ws.sandbox_generation + 1;
    })

  unfoldable pub bump_found : Text → Text → EditorRelease → Option Workspace → M p GenerationBump
  unfolding bump_row
  bump_found id blob_pathname release none = throw (fatal (lit "workspace_missing:" ++ id))
  bump_found id blob_pathname release (some ws) =
      bump_row id blob_pathname release ws ws.previous_sandbox_name

  unfoldable pub step_bump_generation : Text → Text → EditorRelease → M p GenerationBump
  unfolding bump_found
  step_bump_generation id blob_pathname release = do
    row ← select_workspace id
    bump_found id blob_pathname release row

  unfoldable pub step_purge_workspace_rows : Text → M p (Unit {0})
  step_purge_workspace_rows id = do
    modify_db
        (λ db. record db { forwards = filter (λ f. not (text_eq f.workspace_id id)) db.forwards })
    close_open_session id (lit "deleted")
    t ← now
    update_workspace id (purged t)
