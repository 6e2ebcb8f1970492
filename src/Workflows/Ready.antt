-- ===== src/Workflows/Ready.antt =====
-- The readiness wait that apps/web/workflows/create-workspace.ts and connect-workspace.ts share:
-- poll the supervisor's health and its exit until it serves, exits, or the ceiling is reached.
use zedspaces.Base.{
  ℕ, zero, suc, Bool, true, false, ◌&&◌, Text, lit, ◌++◌, Option, none, some, get_or, decimal, ltb,
  if◌then◌else◌,
}
use zedspaces.Schema.{builds_compatible}
use zedspaces.Health.{HealthProbe, HealthStatus}
use zedspaces.Effects.{Platform, M, ◌>>=◌, ◌>>◌, pure, throw, now, pause, hang, fatal}
use zedspaces.Steps.Commands.{step_probe_health, step_wait_for_command_exit}

-- What the loop polls.
pub record Boot : Type 0 where
  pub workspace_id : Text
  pub health_host : Text
  pub sandbox_name : Text
  pub cmd_id : Text
  pub server_build : Text
  pub deadline : ℕ

abbrev is_serving_status : HealthStatus → Bool
is_serving_status HealthStatus.ready = true
is_serving_status HealthStatus.degraded = true
is_serving_status _ = false

unfoldable pub is_serving : Option HealthProbe → Bool
is_serving none = false
is_serving (some h) = h.server_running && is_serving_status h.status

abbrev pub phase_text : Option HealthProbe → Text
phase_text none = lit "unreachable"
phase_text (some h) = h.phase

abbrev pub build_of : Option HealthProbe → Option Text
build_of none = none
build_of (some h) = h.build

module _ {p : Platform} where
  unfoldable pub accept_build : Boot → Option Text → M p (Unit {0})
  accept_build b build =
      if builds_compatible build (some b.server_build)
      then pure tt
      else throw (fatal (lit "build_mismatch:" ++ get_or (lit "null") build))

  unfoldable pub not_yet : Boot → Option HealthProbe → M p (Unit {0}) → Option ℕ → M p (Unit {0})
  not_yet b health again (some code) =
      throw (fatal (lit "supervisor_exit:" ++ decimal code ++ lit ":" ++ phase_text health))
  not_yet b health again none = do
    t ← now
    if ltb b.deadline t
        then throw (fatal (lit "health_timeout:" ++ phase_text health))
        else (do pause 5000; again)

  unfoldable pub ready_round : Boot → M p (Unit {0}) → Option HealthProbe → M p (Unit {0})
  unfolding accept_build not_yet is_serving
  ready_round b again health = if is_serving health then accept_build b (build_of health) else (do
    exit ← step_wait_for_command_exit b.sandbox_name b.cmd_id 1000
    not_yet b health again exit)

  unfoldable pub wait_ready : ℕ → Boot → M p (Unit {0})
  unfolding ready_round
  wait_ready zero b = hang
  wait_ready (suc fuel) b =
      let again = wait_ready fuel b in
      step_probe_health b.workspace_id b.health_host >>= λ health. ready_round b again health
