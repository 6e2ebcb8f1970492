-- ===== src/Steps/Keeps/Boot.antt =====
-- The steps of Steps/Supervisor and Steps/Sandbox, which write the token and the command.
use zedspaces.Base.{ℕ, Bool, true, false, Text, Option, none, some, refl, List}
use zedspaces.Schema.{Workspace}
use zedspaces.Effects.{Platform, Removal, M, SandboxHandle, CreateSandboxInput}
use zedspaces.Effects.Keeps.{
  Keeps, Keeps-bind, Keeps-then, Keeps-pure, Keeps-throw, Keeps-catch, Keeps-some_or, Keeps-call,
  Keeps-now, Keeps-select, Keeps-update,
}
use zedspaces.Steps.Supervisor.{
  Started, rotated, with_command, or_fail, or_else, get_handle, hosts_of, load_workspace_row,
  rotate_sandbox_token, start_supervisor, handle_of,
}
use zedspaces.Steps.Sandbox.{
  adopt_created, step_create_sandbox, command_alive, run_hook, reuse_or_start, ensure_started,
  resumed_with, step_resume_sandbox, step_resume_sandbox_quiet, step_start_supervisor, reuse_if,
  session_of,
}
use zedspaces.Steps.Keeps.Rows.{Keeps-present}

-- A property of the row that a new token, command or boot phase does not touch.
pub record IsCalm (φ : Workspace → Type 0) : Type 0 where
  pub rotate : (hash : Text) (t : ℕ) (r : Workspace) → φ r → φ (rotated hash t r)
  pub command : (cmd : Text) (t : ℕ) (r : Workspace) → φ r → φ (with_command cmd t r)

module _ {p : Platform} {id : Text} {φ : Workspace → Type 0} {ρ : List Removal → Type 0} where
  module _ {A : Type 0} where
    pub Keeps-or_fail : {m : M p A} → Keeps id φ ρ m → Keeps id φ ρ (or_fail m)
    unfolding or_fail
    Keeps-or_fail h = Keeps-catch h (λ e. Keeps-throw _)

    pub Keeps-or_else : {m : M p A} (d : A) → Keeps id φ ρ m → Keeps id φ ρ (or_else m d)
    Keeps-or_else d h = Keeps-catch h (λ e. Keeps-pure d)

  pub Keeps-get : (name : Text) (resume : Bool) → Keeps id φ ρ (get_handle {p = p} name resume)
  unfolding get_handle
  Keeps-get name resume = Keeps-bind (Keeps-call (p.get name resume)) found
    where
      found : (o : Option (SandboxHandle × Bool)) → Keeps id φ ρ (handle_of {p = p} o)
      found none = Keeps-pure none
      found (some hit) = Keeps-pure (some hit.0)

  pub Keeps-hosts_of : (h : SandboxHandle) → Keeps id φ ρ (hosts_of {p = p} h)
  unfolding hosts_of
  Keeps-hosts_of h =
      Keeps-bind (Keeps-some_or _ _)
        (λ rpc. Keeps-bind (Keeps-some_or _ _) (λ health. Keeps-pure _))

  pub Keeps-load_row : (j : Text) → Keeps id φ ρ (load_workspace_row {p = p} j)
  unfolding load_workspace_row
  Keeps-load_row j = Keeps-bind (Keeps-select j) (Keeps-present j)

  module _ (calm : IsCalm φ) where
    Keeps-rotate : (j : Text) → Keeps id φ ρ (rotate_sandbox_token {p = p} j)
    unfolding rotate_sandbox_token rotated
    Keeps-rotate j = Keeps-bind (Keeps-call p.random) λ bytes. Keeps-bind Keeps-now λ t.
        Keeps-then (Keeps-update j (rotated _ t) (λ r. refl) (calm.rotate _ t)) (
          Keeps-bind (Keeps-select j)
            (λ row. Keeps-bind (Keeps-some_or row _) (λ ws. Keeps-pure _)))

    pub Keeps-start_supervisor :
        (h : SandboxHandle) (ws : Workspace) (mode : Text)
        → Keeps id φ ρ (start_supervisor {p = p} h ws mode)
    unfolding start_supervisor with_command
    Keeps-start_supervisor h ws mode = Keeps-bind (Keeps-rotate ws.id) λ minted.
        Keeps-bind (Keeps-call _) λ cmd. Keeps-bind Keeps-now λ t.
          Keeps-then (Keeps-update ws.id (with_command cmd t) (λ r. refl) (calm.command cmd t))
            (Keeps-pure _)

    Keeps-hook :
        (ws : Workspace) (o : Option (SandboxHandle × Bool)) → Keeps id φ ρ (run_hook {p = p} ws o)
    unfolding run_hook
    Keeps-hook ws none = Keeps-pure none
    Keeps-hook ws (some (h, false)) = Keeps-pure _
    Keeps-hook ws (some (h, true)) =
        Keeps-bind (Keeps-start_supervisor h ws _) (λ started. Keeps-pure _)

    Keeps-alive : (h : SandboxHandle) (cmd : Text) → Keeps id φ ρ (command_alive {p = p} h cmd)
    unfolding command_alive
    Keeps-alive h cmd =
        Keeps-catch (Keeps-bind (Keeps-call _) (λ code. Keeps-pure false)) (λ e. Keeps-pure _)

    Keeps-reuse :
        (h : SandboxHandle) (ws : Workspace) (o : Option Text)
        → Keeps id φ ρ (reuse_or_start {p = p} h ws o)
    unfolding reuse_or_start
    Keeps-reuse h ws none = Keeps-start_supervisor h ws _
    Keeps-reuse h ws (some cmd) = Keeps-bind (Keeps-alive h cmd) (λ alive. Keeps-if alive)
      where
        Keeps-if : (b : Bool) → Keeps id φ ρ (reuse_if {p = p} h ws cmd b)
        Keeps-if true = Keeps-pure _
        Keeps-if false = Keeps-start_supervisor h ws _

    Keeps-ensure :
        (j : Text) (h : SandboxHandle) (o : Option Started)
        → Keeps id φ ρ (ensure_started {p = p} j h o)
    unfolding ensure_started
    Keeps-ensure j h (some started) = Keeps-pure started
    Keeps-ensure j h none =
        Keeps-bind (Keeps-load_row j) (λ ws. Keeps-reuse h ws ws.supervisor_cmd_id)

    Keeps-resumed :
        (j : Text) (o : Option (SandboxHandle × Option Started))
        → Keeps id φ ρ (resumed_with {p = p} j o)
    unfolding resumed_with
    Keeps-resumed j none = Keeps-pure none
    Keeps-resumed j (some (h, hook)) =
        Keeps-bind (Keeps-ensure j h hook)
          (λ started. Keeps-bind (Keeps-hosts_of h) (λ hosts. Keeps-pure _))

    pub Keeps-resume : (j name : Text) → Keeps id φ ρ (step_resume_sandbox {p = p} j name)
    unfolding step_resume_sandbox
    Keeps-resume j name = Keeps-bind (Keeps-load_row j) λ ws.
        Keeps-bind (Keeps-or_fail (Keeps-bind (Keeps-call (p.get name true)) (Keeps-hook ws)))
          (Keeps-resumed j)

    pub Keeps-start : (j name : Text) → Keeps id φ ρ (step_start_supervisor {p = p} j name)
    unfolding step_start_supervisor
    Keeps-start j name = Keeps-bind (Keeps-load_row j) λ ws.
        Keeps-bind (Keeps-or_fail (Keeps-get name false))
          λ found. Keeps-bind (Keeps-some_or found _) (λ h. Keeps-start_supervisor h ws _)

  Keeps-adopt :
      (input : CreateSandboxInput) (h : SandboxHandle) (b : Bool)
      → Keeps id φ ρ (adopt_created {p = p} input h b)
  unfolding adopt_created
  Keeps-adopt input h true = Keeps-pure h
  Keeps-adopt input h false =
      Keeps-bind (Keeps-or_fail (Keeps-get input.name true)) (λ o. Keeps-some_or o _)

  pub Keeps-create : (input : CreateSandboxInput) → Keeps id φ ρ (step_create_sandbox {p = p} input)
  unfolding step_create_sandbox
  Keeps-create input =
      Keeps-bind (Keeps-or_fail (Keeps-call (p.create input)))
        λ h. Keeps-bind (Keeps-adopt input h _) Keeps-hosts_of

  pub Keeps-resume_quiet : (name : Text) → Keeps id φ ρ (step_resume_sandbox_quiet {p = p} name)
  unfolding step_resume_sandbox_quiet
  Keeps-resume_quiet name = Keeps-bind (Keeps-or_fail (Keeps-get name true)) found
    where
      found : (o : Option SandboxHandle) → Keeps id φ ρ (session_of {p = p} o)
      found none = Keeps-pure none
      found (some h) = Keeps-pure _
