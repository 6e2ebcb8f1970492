-- ===== src/Sweep/Decision.antt =====
-- apps/web/app/api/cron/sweep/route.ts: what the conditions of the sweep choose for a running
-- workspace.
pub mod InUse
use zedspaces.Base.{
  digits_value, ℕ, ◌+◌, ◌-◌, ◌*◌, Bool, true, false, not, ◌&&◌, ◌||◌, Text, text_eq, lit, ◌++◌,
  Option, none, some, List, [], ◌∷◌, leb, ltb, is_some, get_or, if◌then◌else◌, filter, any, map,
  min, max, difference,
}
use zedspaces.Schema.{Workspace, WorkspaceState, User, Session, AuditEntry, cron}
use zedspaces.Effects.{
  Platform, M, ◌>>=◌, ◌>>◌, pure, catch, call, now, get_db, modify_db, SandboxHandle,
}
use zedspaces.Effects.Table.{update_workspace}
use zedspaces.Kv.{mget}
use zedspaces.Lifecycle.{start_lifecycle, LifecycleWorkflowName, stop_workspace, restart_session}
use zedspaces.Sessions.{is_open}
use zedspaces.Steps.Supervisor.{get_handle, is_running, is_gone}

abbrev pub budget_ms : ℕ
budget_ms = 50000

abbrev pub ping_lost_ms : ℕ
ping_lost_ms = 300000

abbrev pub cpu_strikes : ℕ
cpu_strikes = 30

abbrev pub extend_horizon_ms : ℕ
extend_horizon_ms = 12600000

abbrev pub extend_min_gain_ms : ℕ
extend_min_gain_ms = 1800000

abbrev pub cap_lead_ms : ℕ
cap_lead_ms = 1800000

abbrev pub cap_restart_recent_ms : ℕ
cap_restart_recent_ms = 7200000

pub record SweepResult : Type 0 where
  pub stopped : ℕ
  pub extended : ℕ
  pub capped : ℕ
  pub reconciled_runs : ℕ
  pub reconciled_vms : ℕ
  pub abuse : ℕ
  pub skipped : ℕ

abbrev pub empty_result : SweepResult
empty_result = record {
  stopped = 0;
  extended = 0;
  capped = 0;
  reconciled_runs = 0;
  reconciled_vms = 0;
  abuse = 0;
  skipped = 0;
}

-- What the store says of one workspace, and whether someone has a session open.
pub record Reading : Type 0 where
  pub activity : Option Text
  pub keepalive : Option Text
  pub health : Option Text
  pub cpu : Option Text
  pub busy : Option Text
  pub attached : Bool

-- `Number(value ?? 0)`; `none` stands for `NaN`. The routes store decimals only.
unfoldable pub number : Option Text → Option ℕ
unfolding digits_value
number none = some 0
number (some s) = digits_value 0 s

-- `Math.max`, `NaN` where an argument is.
abbrev pub max_of : Option ℕ → Option ℕ → Option ℕ
max_of none b = none
max_of (some a) none = none
max_of (some a) (some b) = some (max a b)

-- A comparison with `NaN` does not hold.
abbrev pub holds_of : (ℕ → Bool) → Option ℕ → Bool
holds_of test none = false
holds_of test (some a) = test a

-- What the conditions of the sweep choose for a workspace whose VM is not lost.
pub data Action : Type 0 where
  stop_abuse stop_idle stop_cap restart_cap extend : Action

-- `idleMs >= thresholdMs`
unfoldable pub is_idle : ℕ → Workspace → Reading → Bool
unfolding number
is_idle t row reading =
    holds_of (λ last. leb (last + row.idle_minutes * 60000) t)
      (max_of (max_of (number reading.activity) (number reading.keepalive))
        (some (max (get_or t row.session_started_at) row.last_active_at)))

-- `recentlyUsed`
unfoldable pub is_recently_used : ℕ → Reading → Bool
unfolding number
is_recently_used t reading =
    reading.attached
    || holds_of (λ last. leb t (last + cap_restart_recent_ms))
        (max_of (number reading.keepalive) (number reading.activity))

-- `sessionAge >= ZS_SESSION_CAP_MS - CAP_LEAD_MS`
unfoldable pub is_near_cap : ℕ → ℕ → Workspace → Bool
is_near_cap cap t row = leb (get_or t row.session_started_at + cap) (t + cap_lead_ms)

-- The conditions, in the order of the source.
unfoldable pub choose : ℕ → ℕ → Workspace → Reading → Action
unfolding is_idle is_recently_used is_near_cap number
choose cap t row reading =
    if holds_of (λ strikes. leb cpu_strikes strikes) (number reading.cpu)
    then stop_abuse
    else if is_idle t row reading && not (is_some reading.busy)
    then stop_idle
    else if is_near_cap cap t row
    then (if is_recently_used t reading then restart_cap else stop_cap)
    else extend
