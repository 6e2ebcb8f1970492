-- ===== src/Steps/Keeps/Commands.antt =====
-- The steps of Steps/Commands. Only the two deletions change the removals.
use zedspaces.Base.{ℕ, Bool, true, false, Text, lit, ◌++◌, Option, none, some, refl, List, [], ◌∷◌}
use zedspaces.Schema.{Workspace}
use zedspaces.Health.{HealthProbe, probe_health}
use zedspaces.Effects.{Platform, Removal, SandboxHandle, SandboxStatus}
use zedspaces.Effects.Keeps.{
  Keeps, Keeps-bind, Keeps-then, Keeps-pure, Keeps-when, Keeps-call, Keeps-now, Keeps-select,
  Keeps-update, Keeps-note,
}
use zedspaces.Steps.Commands.{
  boot_reason, write_reason, note_phase, step_probe_health, signal, step_signal_supervisor, wait_on,
  step_wait_for_command_exit, stop_found, step_stop_sandbox, discard, step_stop_sandbox_discard,
  delete_snapshots, destroy, step_delete_sandbox, step_delete_blob, stop_if, discard_at, wait_if,
}
use zedspaces.Steps.Keeps.Boot.{Keeps-get, Keeps-or_fail, Keeps-or_else}

-- A property of the row that does not depend on the boot phase shown to the user.
abbrev pub IsReasonFree : (Workspace → Type 0) → Type 0
IsReasonFree φ = (reason : Text) (t : ℕ) (r : Workspace) → φ r → φ (boot_reason reason t r)

module _ {p : Platform} {id : Text} {φ : Workspace → Type 0} {ρ : List Removal → Type 0} where
  module _ (free : IsReasonFree φ) where
    Keeps-write_reason :
        (j reason : Text) (o : Option Workspace) → Keeps id φ ρ (write_reason {p = p} j reason o)
    unfolding write_reason boot_reason
    Keeps-write_reason j reason none = Keeps-pure tt
    Keeps-write_reason j reason (some r) = Keeps-when _ (
        Keeps-bind Keeps-now
          (λ t. Keeps-update j (boot_reason reason t) (λ r. refl) (free reason t)))

    Keeps-note_phase : (j : Text) (o : Option HealthProbe) → Keeps id φ ρ (note_phase {p = p} j o)
    unfolding note_phase
    Keeps-note_phase j none = Keeps-pure tt
    Keeps-note_phase j (some probe) =
        Keeps-bind (Keeps-select j) (λ row. Keeps-write_reason j (lit "boot:" ++ probe.phase) row)

    pub Keeps-probe : (j host : Text) → Keeps id φ ρ (step_probe_health {p = p} j host)
    unfolding step_probe_health
    Keeps-probe j host =
        Keeps-bind (Keeps-fetch host)
          (λ probe. Keeps-then (Keeps-note_phase j probe) (Keeps-pure probe))
      where
        Keeps-fetch : (host : Text) → Keeps id φ ρ (probe_health {p = p} host)
        Keeps-fetch host = unfold probe_health in record { triple = λ w h. h }

  Keeps-signal : (o : Option SandboxHandle) (cmd : Text) → Keeps id φ ρ (signal {p = p} o cmd)
  unfolding signal
  Keeps-signal none cmd = Keeps-pure tt
  Keeps-signal (some h) cmd = Keeps-when _ (Keeps-or_else tt (Keeps-call (p.kill_command h cmd)))

  pub Keeps-signal_supervisor :
      (name : Text) (o : Option Text) → Keeps id φ ρ (step_signal_supervisor {p = p} name o)
  unfolding step_signal_supervisor
  Keeps-signal_supervisor name none = Keeps-pure tt
  Keeps-signal_supervisor name (some cmd) =
      Keeps-bind (Keeps-or_else none (Keeps-get name false)) (λ found. Keeps-signal found cmd)

  Keeps-wait_on :
      (o : Option SandboxHandle) (cmd : Text) (ms : ℕ) → Keeps id φ ρ (wait_on {p = p} o cmd ms)
  unfolding wait_on
  Keeps-wait_on none cmd ms = Keeps-pure none
  Keeps-wait_on (some h) cmd ms = Keeps-if _
    where
      Keeps-if : (b : Bool) → Keeps id φ ρ (wait_if {p = p} h cmd ms b)
      Keeps-if true =
          Keeps-or_else none
            (Keeps-bind (Keeps-call (p.wait_command h cmd ms)) (λ code. Keeps-pure (some code)))
      Keeps-if false = Keeps-pure none

  pub Keeps-wait :
      (name cmd : Text) (ms : ℕ) → Keeps id φ ρ (step_wait_for_command_exit {p = p} name cmd ms)
  unfolding step_wait_for_command_exit
  Keeps-wait name cmd ms =
      Keeps-bind (Keeps-or_else none (Keeps-get name false)) (λ found. Keeps-wait_on found cmd ms)

  Keeps-stop_found : (o : Option SandboxHandle) → Keeps id φ ρ (stop_found {p = p} o)
  unfolding stop_found
  Keeps-stop_found none = Keeps-pure none
  Keeps-stop_found (some h) = Keeps-if _
    where
      Keeps-if : (b : Bool) → Keeps id φ ρ (stop_if {p = p} h b)
      Keeps-if true = Keeps-pure _
      Keeps-if false = Keeps-bind (Keeps-call (p.stop h)) (λ res. Keeps-pure (some res))

  pub Keeps-stop : (name : Text) → Keeps id φ ρ (step_stop_sandbox {p = p} name)
  unfolding step_stop_sandbox
  Keeps-stop name = Keeps-bind (Keeps-or_fail (Keeps-get name false)) Keeps-stop_found

  Keeps-discard : (o : Option SandboxHandle) → Keeps id φ ρ (discard {p = p} o)
  unfolding discard
  Keeps-discard none = Keeps-pure none
  Keeps-discard (some h) = Keeps-if _
    where
      Keeps-if : (s : SandboxStatus) → Keeps id φ ρ (discard_at {p = p} h s)
      Keeps-if SandboxStatus.stopped = Keeps-pure _
      Keeps-if _ = Keeps-bind (Keeps-call (p.stop h)) (λ res. Keeps-pure (some res.usage))

  pub Keeps-stop_discard : (name : Text) → Keeps id φ ρ (step_stop_sandbox_discard {p = p} name)
  unfolding step_stop_sandbox_discard
  Keeps-stop_discard name = Keeps-bind (Keeps-or_fail (Keeps-get name false)) Keeps-discard

  Keeps-delete_snapshots : (ids : List Text) → Keeps id φ ρ (delete_snapshots {p = p} ids)
  unfolding delete_snapshots
  Keeps-delete_snapshots [] = Keeps-pure tt
  Keeps-delete_snapshots (x ∷ xs) =
      Keeps-then (Keeps-or_else tt (Keeps-call (p.delete_snapshot x))) (Keeps-delete_snapshots xs)

  Keeps-destroy :
      (name : Text) (o : Option SandboxHandle)
      → ((l : List Removal) → ρ l → ρ (Removal.sandbox name ∷ l))
      → Keeps id φ ρ (destroy {p = p} name o)
  unfolding destroy
  Keeps-destroy name none grow = Keeps-pure tt
  Keeps-destroy name (some h) grow = Keeps-then (Keeps-note (Removal.sandbox name) grow) (
      Keeps-then
        (Keeps-when _ (Keeps-bind (Keeps-or_else _ (Keeps-call (p.stop h))) (λ res. Keeps-pure tt)))
        (Keeps-bind (Keeps-or_else [] (Keeps-call (p.list_snapshot_ids h))) (λ ids.
          Keeps-then (Keeps-delete_snapshots ids) (Keeps-or_else tt (Keeps-call (p.delete h))))))

  pub Keeps-delete_sandbox :
      (name : Text)
      → ((l : List Removal) → ρ l → ρ (Removal.sandbox name ∷ l))
      → Keeps id φ ρ (step_delete_sandbox {p = p} name)
  unfolding step_delete_sandbox
  Keeps-delete_sandbox name grow =
      Keeps-bind (Keeps-or_else none (Keeps-get name false)) (λ o. Keeps-destroy name o grow)

  pub Keeps-delete_blob :
      (pathname : Text)
      → ((l : List Removal) → ρ l → ρ (Removal.blob pathname ∷ l))
      → Keeps id φ ρ (step_delete_blob {p = p} pathname)
  unfolding step_delete_blob
  Keeps-delete_blob pathname grow =
      Keeps-then (Keeps-note (Removal.blob pathname) grow)
        (Keeps-or_else tt (Keeps-call (p.del_blob pathname)))
