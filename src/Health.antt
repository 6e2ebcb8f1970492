-- ===== src/Health.antt =====
-- The supervisor's health report, from apps/web/lib/connect.ts.
use zedspaces.Base.{
  ℕ, Bool, true, false, ◌&&◌, ◌||◌, ◌==◌, Text, text_eq, lit, Option, none, some, List, [], ◌∷◌,
  any, if◌then◌else◌,
}
use zedspaces.Json.{Json, bool, num, str, obj, Fields, get}
use zedspaces.Effects.{Platform, M, ok}

pub data HealthStatus : Type 0 where
  booting ready degraded stopping : HealthStatus

pub record HealthProbe : Type 0 where
  pub ready : Bool
  pub status : HealthStatus
  pub phase : Text
  pub build : Option Text
  pub manifest_build : Option Text
  pub resumed : Bool
  pub busy : Bool
  pub server_running : Bool
  pub server_crash_loop : Bool
  pub server_restarts : ℕ
  pub uptime_secs : ℕ

-- `HEALTH_STATUSES`
unfoldable pub status_of : Text → Option HealthStatus
status_of s =
    if text_eq s (lit "booting")
    then some booting
    else if text_eq s (lit "ready")
    then some HealthStatus.ready
    else if text_eq s (lit "degraded")
    then some degraded
    else if text_eq s (lit "stopping")
    then some stopping
    else none

-- `BOOT_PHASES`
boot_phases : List Text
boot_phases =
    lit "manifest"
    ∷ lit "restore"
    ∷ lit "clone"
    ∷ lit "server_starting"
    ∷ lit "dotfiles"
    ∷ lit "post_create"
    ∷ lit "post_start"
    ∷ lit "ready"
    ∷ []

-- `typeof v === "string"` and so on, with the value.
abbrev as_text : Option Json → Option Text
as_text (some (str s)) = some s
as_text _ = none

abbrev as_num : Option Json → ℕ
as_num (some (num n)) = n
as_num _ = 0

abbrev is_true : Option Json → Bool
is_true (some (bool true)) = true
is_true _ = false

abbrev as_bool : Option Json → Option Bool
as_bool (some (bool b)) = some b
as_bool _ = none

-- `raw.server?.field`
abbrev within : Option Json → Text → Option Json
within (some (obj fs)) k = get k fs
within _ k = none

phase_of : Option Json → Text
unfolding boot_phases
phase_of (some (str s)) = if any (text_eq s) boot_phases then s else lit "manifest"
phase_of _ = lit "manifest"

-- The minimal body of the public listener.
minimal_probe : Fields → Bool → HealthProbe
unfolding phase_of
minimal_probe raw good = record {
  ready = good && is_true (get (lit "serverUp") raw);
  status = if good then HealthStatus.ready else booting;
  phase = phase_of (get (lit "phase") raw);
  build = as_text (get (lit "build") raw);
  manifest_build = none;
  resumed = false;
  busy = false;
  server_running = is_true (get (lit "serverUp") raw);
  server_crash_loop = false;
  server_restarts = 0;
  uptime_secs = as_num (get (lit "uptimeSec") raw);
}

abbrev is_up : HealthStatus → Bool
is_up HealthStatus.ready = true
is_up degraded = true
is_up _ = false

full_probe : Fields → HealthStatus → HealthProbe
unfolding phase_of
full_probe raw status =
    let server = get (lit "server") raw in
    record {
      ready = is_up status && is_true (within server (lit "running"));
      status = status;
      phase = phase_of (get (lit "phase") raw);
      build = as_text (get (lit "build") raw);
      manifest_build = as_text (get (lit "manifestBuild") raw);
      resumed = is_true (get (lit "resumed") raw);
      busy = is_true (get (lit "busy") raw);
      server_running = is_true (within server (lit "running"));
      server_crash_loop = is_true (within server (lit "crashLoop"));
      server_restarts = as_num (within server (lit "restarts"));
      uptime_secs = as_num (get (lit "uptimeSecs") raw);
    }

with_status : Fields → Option HealthStatus → Option HealthProbe
unfolding full_probe
with_status raw none = none
with_status raw (some status) = some (full_probe raw status)

body_probe : Fields → Option Text → Option Bool → Option HealthProbe
unfolding minimal_probe with_status status_of
body_probe raw (some s) good = with_status raw (status_of s)
body_probe raw none (some good) = some (minimal_probe raw good)
body_probe raw none none = none

-- `parseHealthBody`. An array has no `status` and no `ok`, so it reads as null too.
unfoldable pub parse_health_body : Json → Option HealthProbe
unfolding body_probe
parse_health_body (obj raw) =
    body_probe raw (as_text (get (lit "status") raw)) (as_bool (get (lit "ok") raw))
parse_health_body _ = none

answer : Option (ℕ × Json) → Option HealthProbe
unfolding parse_health_body
answer none = none
answer (some (status, body)) =
    if status == 200 || status == 503 then parse_health_body body else none

-- `probeHealth` never throws.
unfoldable pub probe_health : {p : Platform} → Text → M p (Option HealthProbe)
unfolding answer
probe_health {p = p} host w =
    let (c, reply) = p.fetch_health host w.cloud in (record w { cloud = c }, ok (answer reply))
