-- ===== src/Examples/Demo.antt =====
-- A platform whose sandbox always comes up, and one workspace on it.
use zedspaces.Base.{ℕ, ◌+◌, true, Text, lit, none, some, [], ◌∷◌}
use zedspaces.Schema.{
  Env, vercel, production, iad1, Workspace, WorkspaceState, vcpu2, fresh, tarball, new_sandbox_name,
  EditorRelease,
}
use zedspaces.Json.{Json, obj, bool, Fields}
use zedspaces.Effects.{Platform, World, ok, SandboxHandle, SandboxStatus, completed}

abbrev pub demo_env : Env
demo_env = record {
  rpc_port = 8443;
  health_port = 8451;
  idle_minutes_default = 30;
  retention_days = 14;
  session_timeout_ms = 2700000;
  session_cap_ms = 14400000;
  max_running_workspaces = 5;
  sandbox_backend = vercel;
  vercel_env = some production;
  default_region = iad1;
  bypass_secret = none;
  api_base = lit "https://zed.test/api";
  image_ref = some (lit "image");
  server_build_id = some (lit "b1");
  client_build_id = none;
  editor_bundles = none;
  editor_update_builds = none;
}

abbrev demo_handle : Text → SandboxHandle
demo_handle name = record {
  name = name;
  status = SandboxStatus.running;
  region = lit "iad1";
  expires_at = none;
  current_session_id = some (lit "s1");
  domain = λ port. some (lit "host");
}

abbrev demo_health : Json
demo_health =
    obj (Fields.field (lit "ok") (bool true) (Fields.field (lit "serverUp") (bool true) Fields.end))

-- The state is the time.
abbrev pub demo : Platform
demo = record {
  State = ℕ;
  env = demo_env;
  clock = λ t. t;
  sleep = λ ms t. t + ms;
  random = λ t. (t, ok (lit "r"));
  describe = λ e. lit "error";
  message = λ e. lit "error";
  sha256_hex = λ s. s;
  create = λ input t. (t, ok (demo_handle input.name));
  get = λ name resume t. (t, ok (some (demo_handle name, resume)));
  run_detached = λ h input t. (t, ok (lit "cmd"));
  run = λ h input t. (t, ok (record { exit_code = 0; stdout = [] }));
  wait_command = λ h cmd ms t. (t, ok 0);
  kill_command = λ h cmd t. (t, ok tt);
  stop = λ h t. (
    t,
    ok (record {
      snapshot_size_bytes = none;
      usage = record { active_cpu_duration_ms = 0; ingress_bytes = 0; egress_bytes = 0 };
    }),
  );
  read_file = λ h path t. (t, ok (some (lit "bytes")));
  list_snapshot_ids = λ h t. (t, ok []);
  delete_snapshot = λ s t. (t, ok tt);
  extend_timeout = λ h ms t. (t, ok tt);
  delete = λ h t. (t, ok tt);
  list_by_tag = λ tag t. (t, ok []);
  put_blob = λ pathname body t. (t, ok (pathname, 5));
  del_blob = λ pathname t. (t, ok tt);
  fetch_health = λ host t. (t, some (200, demo_health));
  start = λ name t. (t, ok (lit "run"));
  run_status = λ run_id t. (t, completed);
}

abbrev pub demo_id : Text
demo_id = lit "ws_00000000000000000001"

abbrev pub demo_workspace : Workspace
demo_workspace = record {
  id = demo_id;
  owner_user_id = lit "u";
  org_id = none;
  repo_id = lit "repo";
  name = lit "demo";
  branch = none;
  workshop_key = none;
  revision = none;
  git_ref = none;
  pull_request = none;
  machine = vcpu2;
  region = iad1;
  sandbox_name = new_sandbox_name demo_env demo_id 1;
  previous_sandbox_name = none;
  sandbox_generation = 1;
  image_ref = lit "image";
  server_build = lit "b1";
  client_build = lit "b1";
  restore_kind = fresh;
  restore_blob_pathname = none;
  state = WorkspaceState.running;
  state_reason = none;
  audience = lit "a";
  sandbox_token_hash = none;
  sandbox_token_generation = 0;
  supervisor_cmd_id = none;
  current_ws_host = none;
  current_slot_hosts = none;
  current_health_host = none;
  current_sandbox_session_id = none;
  session_started_at = none;
  sandbox_expires_at = none;
  snapshot_size_bytes = none;
  workflow_run_id = some (lit "run");
  workflow_run_started_at = some 0;
  last_active_at = 0;
  idle_minutes = 30;
  installed_extensions = [];
  retention_until = none;
  retention_warned_at = none;
  created_at = 0;
  updated_at = 0;
  last_stopped_at = none;
  deleted_at = none;
}

-- A rebuild has bumped the generation and not finished.
abbrev pub bumped_workspace : Workspace
bumped_workspace = record demo_workspace {
  sandbox_name = lit "new";
  previous_sandbox_name = some (lit "old");
  restore_kind = tarball;
  restore_blob_pathname = some (lit "archive");
}

abbrev pub demo_release : EditorRelease
demo_release = record { image_ref = lit "image2"; server_build = lit "b2"; client_build = lit "b2" }

abbrev pub world_of : Workspace → World demo
world_of ws = record {
  db = record {
    workspaces = ws ∷ [];
    sessions = [];
    forwards = [];
    kv = [];
    users = [];
    settings_docs = [];
    audit_log = [];
    auth_sessions = [];
    auth_verifications = [];
  };
  cloud = 1000;
  removed = [];
}
