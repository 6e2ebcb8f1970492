-- ===== src/Effects/Api.antt =====
-- What the process runs on, as a parameter: the sandbox backend behind `SandboxApi` and
-- `SandboxHandle` (apps/web/lib/sandbox.ts), the blob store, `fetch`, the clock and randomness.
use zedspaces.Base.{ℕ, ℤ, Bool, Text, Option, none, List}
use zedspaces.Schema.{Region, Env}
use zedspaces.Json.{Json}
use zedspaces.Effects.Errors.{Error, Res}

pub data SandboxStatus : Type 0 where
  pending running stopping stopped failed aborted snapshotting : SandboxStatus

pub record SandboxUsage : Type 0 where
  pub active_cpu_duration_ms : ℕ
  pub ingress_bytes : ℕ
  pub egress_bytes : ℕ

pub record RunInput : Type 0 where
  pub cmd : Text
  pub args : List Text
  pub env : Option (List (Text × Text))
  pub cwd : Option Text
  pub sudo : Option Bool
  pub timeout_ms : Option ℕ

-- A command with nothing but its arguments.
abbrev pub command : Text → List Text → RunInput
command cmd args = record {
  cmd = cmd;
  args = args;
  env = none;
  cwd = none;
  sudo = none;
  timeout_ms = none;
}

pub record RunResult : Type 0 where
  pub exit_code : ℕ
  pub stdout : Text

pub record StopResult : Type 0 where
  pub snapshot_size_bytes : Option ℕ
  pub usage : SandboxUsage

-- The readable part of a handle. `domain port` is `none` where the source's `domain` throws.
pub record SandboxHandle : Type 0 where
  pub name : Text
  pub status : SandboxStatus
  pub region : Text
  pub expires_at : Option ℕ
  pub current_session_id : Option Text
  pub domain : ℕ → Option Text

pub data NetworkPolicy : Type 0 where
  allow_all : NetworkPolicy
  allow : List Text → NetworkPolicy

-- The only kind of `source` is a snapshot, given here by its id.
pub record CreateSandboxInput : Type 0 where
  pub name : Text
  pub region : Region
  pub vcpus : ℕ
  pub ports : List ℕ
  pub timeout_ms : ℕ
  pub image : Option Text
  pub source : Option Text
  pub env : List (Text × Text)
  pub network_policy : NetworkPolicy
  pub tags : List (Text × Text)
  pub persistent : Option Bool
  pub snapshot_expiration_ms : Option ℕ
  pub keep_last_snapshots : Option ℕ

-- The status of a workflow run, `unknown` where the run store cannot be read.
pub data RunStatus : Type 0 where
  pending running completed failed cancelled unknown : RunStatus

-- An operation answers, and leaves the outside world in a new state.
abbrev pub Op : Type 0 → Type 0 → Type 0
Op S A = S → S × Res A

pub record Platform : Type 1 where
  pub State : Type 0
  pub env : Env
  pub clock : State → ℕ
  pub sleep : ℕ → State → State
  pub random : Op State Text
  -- `String(err)`
  pub describe : Error → Text
  -- `err.message`
  pub message : Error → Text
  pub sha256_hex : Text → Text
  pub create : CreateSandboxInput → Op State SandboxHandle
  -- The flag says that this call resumed the VM, so that `onResume` runs.
  pub get : Text → Bool → Op State (Option (SandboxHandle × Bool))
  pub run_detached : SandboxHandle → RunInput → Op State Text
  pub run : SandboxHandle → RunInput → Op State RunResult
  pub wait_command : SandboxHandle → Text → ℕ → Op State ℕ
  pub kill_command : SandboxHandle → Text → Op State (Unit {0})
  pub stop : SandboxHandle → Op State StopResult
  pub read_file : SandboxHandle → Text → Op State (Option Text)
  pub list_snapshot_ids : SandboxHandle → Op State (List Text)
  pub delete_snapshot : Text → Op State (Unit {0})
  pub extend_timeout : SandboxHandle → ℤ → Op State (Unit {0})
  pub delete : SandboxHandle → Op State (Unit {0})
  pub list_by_tag : Text → Op State (List (Text × SandboxStatus))
  pub put_blob : Text → Text → Op State (Text × ℕ)
  pub del_blob : Text → Op State (Unit {0})
  -- Status and body of a `fetch`; `none` where it rejects.
  pub fetch_health : Text → State → State × Option (ℕ × Json)
  -- The workflow runtime: starting a run by its workflow's name, and reading a run's status.
  pub start : Text → Op State Text
  pub run_status : Text → State → State × RunStatus
