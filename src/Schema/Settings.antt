-- ===== src/Schema/Settings.antt =====
-- The process environment (apps/web/lib/env.ts), the ports that the platform reserves, and the
-- comparison of builds (apps/web/lib/builds.ts, apps/web/lib/release.ts).
use zedspaces.Base.{
  ℕ, suc, zero, ◌+◌, Bool, true, false, ◌||◌, ◌&&◌, Text, text_eq, lit, starts_with, Option, none,
  some, List, [], ◌∷◌, ◌++◌, map, contains, decimal, drop, leb, if◌then◌else◌, get_or, ◌==◌,
}
use zedspaces.Schema.Rows.{Region}

pub data SandboxBackend : Type 0 where
  vercel local docker : SandboxBackend

pub data VercelEnv : Type 0 where
  production preview development : VercelEnv

-- The variables that the modelled code reads, with the defaults filled in.
pub record Env : Type 0 where
  pub rpc_port : ℕ
  pub health_port : ℕ
  pub idle_minutes_default : ℕ
  pub retention_days : ℕ
  pub session_timeout_ms : ℕ
  pub session_cap_ms : ℕ
  pub max_running_workspaces : ℕ
  pub sandbox_backend : SandboxBackend
  pub vercel_env : Option VercelEnv
  pub default_region : Region
  pub bypass_secret : Option Text
  pub api_base : Text
  pub image_ref : Option Text
  pub server_build_id : Option Text
  pub client_build_id : Option Text
  pub editor_bundles : Option Text
  pub editor_update_builds : Option Text

unfoldable pub proxy_slots : List ℕ
proxy_slots = 8444 ∷ 8445 ∷ 8446 ∷ 8447 ∷ 8452 ∷ 8453 ∷ 8454 ∷ 8455 ∷ 8456 ∷ 8457 ∷ 8458 ∷ 8459 ∷ []

-- `for (port = from; …; port += 1) set.add(port)` over `count` ports.
abbrev range : ℕ → ℕ → List ℕ
range from zero = []
range from (suc n) = from ∷ range (from + 1) n

-- `infraPorts` as a set: only its members matter to `isInfraPort`.
infra_ports : Env → List ℕ
unfolding proxy_slots
infra_ports e = 22 ∷ 53 ∷ 111 ∷ 23456 ∷ e.rpc_port ∷ e.health_port ∷ (range 8443 18 ++ proxy_slots)

unfoldable pub is_infra_port : Env → ℕ → Bool
unfolding infra_ports
is_infra_port e port = contains (infra_ports e) port

-- apps/web/lib/builds.ts
pub record EditorRelease : Type 0 where
  pub image_ref : Text
  pub server_build : Text
  pub client_build : Text

-- `!a`: null, undefined and the empty string.
abbrev is_blank : Option Text → Bool
is_blank none = true
is_blank (some []) = true
is_blank (some (c ∷ s)) = false

abbrev is_dev : Text → Bool
is_dev build = starts_with (lit "dev") build

unfoldable pub builds_compatible : Option Text → Option Text → Bool
builds_compatible a b =
    is_blank a
    || is_blank b
    || text_eq (get_or [] a) (get_or [] b)
    || is_dev (get_or [] a)
    || is_dev (get_or [] b)

unfoldable pub same_release : EditorRelease → EditorRelease → Bool
same_release a b =
    text_eq a.image_ref b.image_ref
    && text_eq a.server_build b.server_build
    && text_eq a.client_build b.client_build

-- apps/web/lib/release.ts; `none` is the `EnvError`. An empty variable counts as missing.
unfoldable pub current_release : Env → Option EditorRelease
current_release e =
    if is_blank e.image_ref || is_blank e.server_build_id
    then none
    else some (record {
      image_ref = get_or [] e.image_ref;
      server_build = get_or [] e.server_build_id;
      client_build = get_or (get_or [] e.server_build_id) e.client_build_id;
    })

-- `s.split(",").includes(build)`: `seen` is what has been read of the current part.
abbrev pub is_part : Text → Text → Text → Bool
is_part build seen [] = text_eq seen build
is_part build seen (c ∷ s) =
    let next = is_part build [] s in
    let longer = is_part build (seen ++ c ∷ []) s in
    if c == 44 then text_eq seen build || next else longer

abbrev pub lists_build : Option Text → Text → Bool
lists_build none build = false
lists_build (some s) build = is_part build [] s

-- `canDeferUpgrade`
unfoldable pub can_defer_upgrade : Env → Text → Bool
can_defer_upgrade e client_build =
    is_dev client_build
    || (lists_build e.editor_bundles client_build
        && lists_build e.editor_update_builds client_build)

-- apps/web/lib/ids.ts
abbrev pub short_of : Option VercelEnv → Text
short_of none = lit "dev"
short_of (some production) = lit "prod"
short_of (some preview) = lit "prev"
short_of (some development) = lit "dev"

abbrev pub env_short : Env → Text
env_short e = short_of e.vercel_env

-- `toLowerCase` on the ASCII characters of an id.
abbrev pub to_lower : ℕ → ℕ
to_lower c = if leb 65 c && leb c 90 then c + 32 else c

unfoldable pub new_sandbox_name : Env → Text → ℕ → Text
new_sandbox_name e workspace_id generation =
    (lit "sb-" ++ env_short e ++ lit "-" ++ map to_lower (drop 3 workspace_id) ++ lit "-g")
    ++ decimal generation
