-- ===== src/Connect/Request.antt =====
-- apps/web/app/api/workspaces/[id]/connect/route.ts: the request, the answers and the tests.
use zedspaces.Base.{
  ℕ, Bool, true, false, not, ◌&&◌, Text, text_eq, Option, none, some, List, [], ◌∷◌, is_some,
  if◌then◌else◌,
}
use zedspaces.Schema.{
  Workspace, WorkspaceState, creating, stopping, rebuilding, deleting, User, EditorRelease,
  builds_compatible,
}
use zedspaces.Sweep.Running.{says_running}

pub data ConnectReason : Type 0 where
  open_tab reconnect resume_tab : ConnectReason

-- `connectInput`
pub record ConnectInput : Type 0 where
  pub client_build : Option Text
  pub reason : ConnectReason
  pub tab_id : Text

-- `ConnectInfo`, less its URL and its dates.
pub record ConnectInfo : Type 0 where
  pub host : Text
  pub token : Text
  pub session_id : Text
  pub workspace_id : Text
  pub server_build : Text
  pub client_build : Text
  pub session_cap_at : ℕ
  pub audience : Text

-- The answers `200`, and `202` with its two states.
pub data ConnectAnswer : Type 0 where
  connected : ConnectInfo → ConnectAnswer
  upgrading : Text → ConnectAnswer
  resuming : Text → ConnectAnswer

-- `BUSY_STATES`
abbrev pub is_busy_state : WorkspaceState → Bool
is_busy_state creating = true
is_busy_state stopping = true
is_busy_state rebuilding = true
is_busy_state deleting = true
is_busy_state _ = false

abbrev pub is_reconnect : ConnectReason → Bool
is_reconnect reconnect = true
is_reconnect _ = false

-- `input.clientBuild && !buildsCompatible(input.clientBuild, build)`
abbrev pub is_mismatch : Option Text → Text → Bool
is_mismatch none build = false
is_mismatch (some []) build = false
is_mismatch (some (c ∷ s)) build = not (builds_compatible (some (c ∷ s)) (some build))

abbrev pub is_named : Option Text → Bool
is_named (some (c ∷ s)) = true
is_named _ = false

abbrev pub release_of_row : Workspace → EditorRelease
release_of_row ws = record {
  image_ref = ws.image_ref;
  server_build = ws.server_build;
  client_build = ws.client_build;
}

abbrev pub is_flagged : Text → List User → Bool
is_flagged id [] = false
is_flagged id (u ∷ us) = if text_eq u.id id then is_some u.flagged_at else is_flagged id us

abbrev pub resume_wait_ms : ℕ
resume_wait_ms = 45000

abbrev pub resume_poll_ms : ℕ
resume_poll_ms = 1500

abbrev pub is_resumed : Option Workspace → Bool
is_resumed none = false
is_resumed (some r) = says_running r.state && not (is_named r.workflow_run_id)
