-- ===== src/Effects/Errors.antt =====
-- The exceptions that the code throws (apps/web/lib/api.ts, apps/web/lib/sandbox-error.ts, and the
-- workflow runtime's `FatalError` and `RetryableError`) and the outcome of a computation.
use zedspaces.Base.{ℕ, Bool, Text}

pub data SandboxErrorCode : Type 0 where
  image_not_ready not_found snapshot_expired snapshot_region_mismatch quota unknown :
      SandboxErrorCode

pub data Error : Type 0 where
  fatal : Text → Error
  retryable : Text → Error
  sandbox_error : SandboxErrorCode → Bool → Text → Error
  api_error : ℕ → Text → Error
  other : Text → Error

-- `hung`: a polling loop used up the fuel that the model gave it.
pub data Res {ℓ} (A : Type ℓ) : Type ℓ where
  ok : A → Res A
  err : Error → Res A
  hung : Res A
