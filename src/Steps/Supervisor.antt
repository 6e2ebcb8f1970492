-- ===== src/Steps/Supervisor.antt =====
-- apps/web/workflows/steps/sandbox-steps.ts: what its steps share. Errors of the platform, hosts,
-- and starting the supervisor with a fresh token.
use zedspaces.Base.{
  ℕ, suc, Bool, true, false, Text, lit, ◌++◌, Option, none, some, List, [], ◌∷◌, get_or,
}
use zedspaces.Schema.{Workspace, Env, VercelEnv, preview, proxy_slots}
use zedspaces.Effects.{
  command, Platform, M, ◌>>=◌, ◌>>◌, pure, throw, catch, call, now, some_or, Error, fatal,
  retryable, sandbox_error, api_error, SandboxErrorCode, image_not_ready, not_found,
  snapshot_expired, snapshot_region_mismatch, quota, unknown, SandboxHandle, SandboxStatus,
}
use zedspaces.Effects.Table.{select_workspace, update_workspace}
use zedspaces.Steps.Db.{SessionHosts, present}

-- `ResumedSandbox`
pub record ResumedSandbox : Type 0 where
  pub hosts : SessionHosts
  pub cmd_id : Text
  pub token_generation : ℕ

-- The command and token generation of a started supervisor.
pub record Started : Type 0 where
  pub cmd_id : Text
  pub token_generation : ℕ

abbrev code_text : SandboxErrorCode → Text
code_text image_not_ready = lit "image_not_ready"
code_text not_found = lit "not_found"
code_text snapshot_expired = lit "snapshot_expired"
code_text snapshot_region_mismatch = lit "snapshot_region_mismatch"
code_text quota = lit "quota"
code_text unknown = lit "unknown"

-- `fail`
unfoldable pub as_failure : Error → Error
as_failure (sandbox_error code true message) = retryable (lit "sandbox_" ++ code_text code)
as_failure (sandbox_error code false message) =
    fatal (lit "sandbox_" ++ code_text code ++ lit ": " ++ message)
as_failure e = e

abbrev pub is_running : SandboxStatus → Bool
is_running SandboxStatus.running = true
is_running _ = false

abbrev pub is_gone : SandboxStatus → Bool
is_gone SandboxStatus.stopped = true
is_gone SandboxStatus.failed = true
is_gone SandboxStatus.aborted = true
is_gone _ = false

-- The hosts of the slots whose port the sandbox declares.
unfoldable pub slot_hosts_of : (ℕ → Option Text) → List ℕ → List (ℕ × Text)
slot_hosts_of domain [] = []
slot_hosts_of domain (slot ∷ slots) =
    let rest = slot_hosts_of domain slots in
    elim (domain slot) [ none ↦ rest | some host ↦ (slot, host) ∷ rest ]

unfoldable pub rotated : Text → ℕ → Workspace → Workspace
rotated hash t r = record r {
  sandbox_token_hash = some hash;
  sandbox_token_generation = suc r.sandbox_token_generation;
  updated_at = t;
}

unfoldable pub with_command : Text → ℕ → Workspace → Workspace
with_command cmd t r = record r { supervisor_cmd_id = some cmd; updated_at = t }

-- `bypassSecretEnv` (apps/web/lib/connect.ts)
unfoldable pub bypass_secret_env : Env → List (Text × Text)
bypass_secret_env e = secret_for e.bypass_secret e.vercel_env
  where
    secret_for : Option Text → Option VercelEnv → List (Text × Text)
    secret_for (some (c ∷ s)) (some preview) = (lit "ZS_BYPASS_SECRET", c ∷ s) ∷ []
    secret_for _ _ = []

-- `supervisorEnvFor` (apps/web/lib/connect.ts)
unfoldable pub supervisor_env_for : Env → Workspace → Text → List (Text × Text)
unfolding bypass_secret_env
supervisor_env_for e ws token =
    (lit "ZS_CONTROL_URL", e.api_base)
    ∷ (lit "ZS_SANDBOX_TOKEN", token)
    ∷ (lit "ZS_SANDBOX_NAME", ws.sandbox_name)
    ∷ (lit "ZS_WORKSPACE_ID", ws.id)
    ∷ bypass_secret_env e

module _ {p : Platform} where
  unfoldable pub or_fail : {A : Type 0} → M p A → M p A
  or_fail m = catch m (λ e. throw (as_failure e))

  -- `.catch(() => d)`
  abbrev pub or_else : {A : Type 0} → M p A → A → M p A
  or_else m d = catch m (λ e. pure d)

  abbrev pub handle_of : Option (SandboxHandle × Bool) → M p (Option SandboxHandle)
  handle_of none = pure none
  handle_of (some hit) = pure (some hit.0)

  -- `api.get(name, { resume })` by a caller that passes no `onResume`.
  unfoldable pub get_handle : Text → Bool → M p (Option SandboxHandle)
  get_handle name resume = do found ← call (p.get name resume); handle_of found

  unfoldable pub hosts_of : SandboxHandle → M p SessionHosts
  unfolding slot_hosts_of
  hosts_of h = do
    rpc ← some_or (h.domain p.env.rpc_port) (fatal (lit "sandbox_missing_routes:" ++ h.name))
    health ← some_or (h.domain p.env.health_port) (fatal (lit "sandbox_missing_routes:" ++ h.name))
    pure (record {
      rpc_host = rpc;
      health_host = health;
      slot_hosts = slot_hosts_of h.domain proxy_slots;
      session_id = get_or [] h.current_session_id;
      expires_at = h.expires_at;
    })

  unfoldable pub load_workspace_row : Text → M p Workspace
  load_workspace_row id = do row ← select_workspace id; present id row

  -- `rotateSandboxToken` (apps/web/lib/sandbox-auth.ts)
  unfoldable pub rotate_sandbox_token : Text → M p (Text × ℕ)
  unfolding rotated
  rotate_sandbox_token id = do
    bytes ← call p.random
    let token = lit "zsb_" ++ bytes
    t ← now
    update_workspace id (rotated (p.sha256_hex token) t)
    row ← select_workspace id
    ws ← some_or row (api_error 404 (lit "not_found"))
    pure (token, ws.sandbox_token_generation)

  unfoldable pub start_supervisor : SandboxHandle → Workspace → Text → M p Started
  unfolding with_command
  start_supervisor h ws mode = do
    minted ← rotate_sandbox_token ws.id
    cmd ← call (
        p.run_detached h (record (command (lit "zs-agent") (mode ∷ [])) {
          env = some (supervisor_env_for p.env ws minted.0);
          sudo = some false;
        }))
    t ← now
    update_workspace ws.id (with_command cmd t)
    pure (record { cmd_id = cmd; token_generation = minted.1 })
