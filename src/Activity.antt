-- ===== src/Activity.antt =====
-- apps/web/app/api/sandboxes/[name]/activity/route.ts: the report that a supervisor sends every 30
-- seconds. Each field is the VM's own word.
pub mod Bounds
pub mod Post
use zedspaces.Base.{
  ℕ, ◌+◌, ◌*◌, ℤ, pos, negsuc, Bool, true, false, not, ◌&&◌, ◌||◌, Text, text_eq, lit, ◌++◌,
  decimal, Option, none, some, List, [], ◌∷◌, map, filter, leb, ltb, is_some, get_or, max, min,
  if◌then◌else◌,
}
use zedspaces.Schema.{Workspace, WorkspaceState, Session, Forward}
use zedspaces.Effects.{Platform, M, ◌>>=◌, ◌>>◌, pure, now, get_db, modify_db}
use zedspaces.Effects.Table.{update_workspace}
use zedspaces.Forwards.{Ports}
use zedspaces.Forwards.Sync.{sync_listening_forwards, sort_ports}
use zedspaces.Kv.Calls.{kv_get, kv_set, kv_del, kv_incr}
use zedspaces.Sweep.Decision.{number, max_of}
use zedspaces.Sweep.Running.{has_session, says_running}

abbrev pub ping_ttl_ms : ℕ
ping_ttl_ms = 120000

abbrev pub last_active_write_ms : ℕ
last_active_write_ms = 60000

abbrev pub cpu_strike_ttl_ms : ℕ
cpu_strike_ttl_ms = 1200000

abbrev pub clock_skew_ms : ℕ
clock_skew_ms = 30000

abbrev pub busy_extends_ms : ℕ
busy_extends_ms = 3600000

-- The fields of `ActivityReport` that the route reads. The share of the CPU is a whole number.
pub record ActivityReport : Type 0 where
  pub last_input_at : Option ℤ
  pub busy : Bool
  pub phase : Text
  pub cpu_busy_pct : Option ℕ
  pub listening : Option (List ℕ)

-- `isBusy`
unfoldable pub is_busy : Workspace → ActivityReport → ℕ → Bool
is_busy ws report t =
    (report.busy || not (text_eq report.phase (lit "ready")))
    && leb t (get_or t ws.session_started_at + busy_extends_ms)

-- `Math.max(lastInputAt, floor)`
abbrev pub max_int : ℤ → ℕ → ℕ
max_int (pos n) floor = max n floor
max_int (negsuc n) floor = floor

abbrev pub remembered : Workspace → Option Text → ℕ → Option ℕ
remembered ws previous floor =
    max_of (max_of (number previous) (some floor)) (some ws.last_active_at)

abbrev pub reported : Workspace → Option ℤ → Bool → ℕ → Option Text → ℕ → Option ℕ
reported ws (some input_at) true t previous floor =
    some (min (max_int input_at floor) (t + clock_skew_ms))
reported ws _ attached t previous floor = remembered ws previous floor

-- `activityInstant`, given the stored value; `none` is `NaN`.
unfoldable pub activity_instant : Workspace → ActivityReport → Bool → ℕ → Option Text → Option ℕ
unfolding is_busy
activity_instant ws report attached t previous =
    if is_busy ws report t
    then some t
    else reported ws report.last_input_at attached t previous (get_or 0 ws.session_started_at)

-- `String(activityAt)`
unfoldable pub number_text : Option ℕ → Text
number_text none = lit "NaN"
number_text (some n) = decimal n

-- `JSON.stringify` of an array of numbers.
abbrev pub joined : List ℕ → Text
joined [] = []
joined (n ∷ []) = decimal n
joined (n ∷ m ∷ ns) = decimal n ++ lit "," ++ joined (m ∷ ns)

abbrev pub json_ports : List ℕ → Text
json_ports ports = lit "[" ++ joined ports ++ lit "]"

-- A strike counts against a VM that nobody uses and that runs no lifecycle command.
abbrev pub is_strike : Bool → Bool → ℕ → Bool
is_strike attached busy cpu = not attached && not busy && ltb 80 cpu

abbrev pub reason_of : Bool → Text → Option Text
reason_of true phase = some (lit "boot:" ++ phase)
reason_of false phase = none

abbrev pub same_text : Option Text → Option Text → Bool
same_text none none = true
same_text (some a) (some b) = text_eq a b
same_text _ _ = false

-- `activityAt - workspace.lastActiveAt.getTime() > LAST_ACTIVE_WRITE_MS`, and the new value.
abbrev pub new_activity : Workspace → ℕ → Option ℕ → Option ℕ
new_activity ws t none = none
new_activity ws t (some at) =
    if ltb (ws.last_active_at + last_active_write_ms) at
    then some (min at (t + clock_skew_ms))
    else none

abbrev pub new_reason : Workspace → ActivityReport → ℕ → Option (Option Text)
new_reason ws report t =
    let reason = reason_of (is_busy ws report t) report.phase in
    if says_running ws.state && not (same_text ws.state_reason reason) then some reason else none

-- The `set` of `syncWorkspaceRow`.
unfoldable pub with_activity : Option (Option Text) → Option ℕ → ℕ → Workspace → Workspace
with_activity reason at t r = record r {
  state_reason = get_or r.state_reason reason;
  last_active_at = get_or r.last_active_at at;
  updated_at = t;
}

-- `ActivityDirective`; `none` is `NaN` for the first field.
pub record ActivityDirective : Type 0 where
  pub idle_stop_at : Option ℕ
  pub session_cap_at : Option ℕ
  pub stop : Bool
  pub forwards : List Forward
  pub server_time : ℕ

abbrev pub stop_requested : WorkspaceState → Bool
stop_requested WorkspaceState.stopping = true
stop_requested _ = false

abbrev pub plus : ℕ → Option ℕ → Option ℕ
plus n none = none
plus n (some a) = some (a + n)

-- `directiveFor`; the rows of the forwards stand for their views.
unfoldable pub directive_for :
    ℕ → Workspace → ActivityReport → ℕ → Option ℕ → Option ℕ → List Forward → ActivityDirective
unfolding is_busy
directive_for cap ws report t activity_at keepalive_at rows = record {
  idle_stop_at = plus (ws.idle_minutes * 60000) (
      max_of (max_of activity_at keepalive_at) (
        some (
          max (max (get_or 0 ws.session_started_at) (if is_busy ws report t then t else 0))
            ws.last_active_at)));
  session_cap_at = plus cap ws.session_started_at;
  stop = stop_requested ws.state;
  forwards = rows;
  server_time = t;
}
