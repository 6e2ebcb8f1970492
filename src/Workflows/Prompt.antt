-- ===== src/Workflows/Prompt.antt =====
-- The steps of a boot and of a stop end on a platform that answers.
use zedspaces.Base.{ℕ, Bool, true, false, Text, Option, none, some}
use zedspaces.Schema.{Workspace, WorkspaceState, RestoreKind}
use zedspaces.Effects.{Platform, M, SandboxHandle, CreateSandboxInput, Error}
use zedspaces.Effects.Ends.{
  IsPrompt, Ends, Ends-bind, Ends-then, Ends-pure, Ends-throw, Ends-catch, Ends-call, Ends-when,
  Ends-now, Ends-select, Ends-update, Ends-some_or, Ends-modify,
}
use zedspaces.Sessions.{close_open, close_open_session}
use zedspaces.Steps.Db.{
  present, unless_deleted, WorkspacePatch, RunOutcome, SessionHosts, step_load_workspace,
  step_set_state, step_finish_run, step_pick_image, step_build_create_input,
  step_record_sandbox_session, step_mark_stopped, step_record_session_end,
}
use zedspaces.Steps.Supervisor.{
  Started, or_fail, or_else, hosts_of, load_workspace_row, rotate_sandbox_token, start_supervisor,
  is_running, is_gone,
}
use zedspaces.Steps.Sandbox.{
  adopt_created, step_create_sandbox, command_alive, run_hook, reuse_or_start, ensure_started,
  resumed_with, step_resume_sandbox, step_start_supervisor, reuse_if,
}
use zedspaces.Steps.Commands.{
  signal, step_signal_supervisor, stop_if, stop_found, step_stop_sandbox,
}
use zedspaces.Workflows.Create.{abandon}
use zedspaces.Workflows.Loops.{Ends-get}

module _ {p : Platform} {t : ℕ} where
  module _ {A : Type 0} where
    pub Ends-or_fail : {m : M p A} → Ends t m → Ends t (or_fail m)
    unfolding or_fail
    Ends-or_fail h = Ends-catch h (λ e. Ends-throw _)

    pub Ends-or_else : {m : M p A} (d : A) → Ends t m → Ends t (or_else m d)
    Ends-or_else d h = Ends-catch h (λ e. Ends-pure d)

  Ends-present : (j : Text) (o : Option Workspace) → Ends t (present {p = p} j o)
  Ends-present j none = Ends-throw _
  Ends-present j (some ws) = alive ws.deleted_at
    where
      alive : (o : Option ℕ) → Ends t (unless_deleted {p = p} j o ws)
      alive none = Ends-pure ws
      alive (some u) = Ends-throw _

  pub Ends-load : (j : Text) → Ends t (step_load_workspace {p = p} j)
  unfolding step_load_workspace
  Ends-load j = Ends-bind (Ends-select j) (λ row. Ends-present j row)

  Ends-load_row : (j : Text) → Ends t (load_workspace_row {p = p} j)
  unfolding load_workspace_row
  Ends-load_row j = Ends-bind (Ends-select j) (λ row. Ends-present j row)

  pub Ends-set_state :
      (j : Text) (s : WorkspaceState) (reason : Option (Option Text)) (patch : WorkspacePatch)
      → Ends t (step_set_state {p = p} j s reason patch)
  unfolding step_set_state
  Ends-set_state j s reason patch = Ends-bind Ends-now (λ u. Ends-update j _)

  pub Ends-finish : (j : Text) (outcome : RunOutcome) → Ends t (step_finish_run {p = p} j outcome)
  unfolding step_finish_run
  Ends-finish j outcome = Ends-bind Ends-now (λ u. Ends-update j _)

  pub Ends-abandon : (j : Text) (child : Bool) (e : Error) → Ends t (abandon {p = p} j child e)
  unfolding abandon
  Ends-abandon j child e = Ends-then (Ends-when _ (Ends-finish j _)) (Ends-throw e)

  pub Ends-pick_image : (j : Text) → Ends t (step_pick_image {p = p} j)
  unfolding step_pick_image
  Ends-pick_image j =
      Ends-bind (Ends-select j) (λ row. Ends-bind (Ends-some_or row _) (λ ws. Ends-pure _))

  pub Ends-create_input : (j image : Text) → Ends t (step_build_create_input {p = p} j image)
  unfolding step_build_create_input
  Ends-create_input j image =
      Ends-bind (Ends-select j) (λ row. Ends-bind (Ends-some_or row _) (λ ws. Ends-pure _))

  pub Ends-record :
      (j : Text) (s : WorkspaceState) (reason : Option Text) (hosts : SessionHosts)
      (kind : Option RestoreKind) (cmd : Option (Option Text))
      → Ends t (step_record_sandbox_session {p = p} j s reason hosts kind cmd)
  unfolding step_record_sandbox_session
  Ends-record j s reason hosts kind cmd = Ends-bind Ends-now (λ u. Ends-update j _)

  pub Ends-mark_stopped :
      (j reason : Text) (s : WorkspaceState) (size : Option (Option ℕ))
      → Ends t (step_mark_stopped {p = p} j reason s size)
  unfolding step_mark_stopped
  Ends-mark_stopped j reason s size = Ends-bind Ends-now (λ u. Ends-update j _)

  pub Ends-session_end : (j reason : Text) → Ends t (step_record_session_end {p = p} j reason)
  unfolding step_record_session_end close_open_session
  Ends-session_end j reason =
      Ends-bind Ends-now
        (λ u. Ends-modify (λ db. record db { sessions = close_open j u reason db.sessions }))

  Ends-hosts_of : (h : SandboxHandle) → Ends t (hosts_of {p = p} h)
  unfolding hosts_of
  Ends-hosts_of h =
      Ends-bind (Ends-some_or _ _) (λ rpc. Ends-bind (Ends-some_or _ _) (λ health. Ends-pure _))

module _ {p : Platform} (prompt : IsPrompt p) {t : ℕ} where
  Ends-rotate : (j : Text) → Ends t (rotate_sandbox_token {p = p} j)
  unfolding rotate_sandbox_token
  Ends-rotate j = Ends-bind (Ends-call p.random prompt.randoms) (λ bytes. Ends-bind Ends-now (λ u.
      Ends-then (Ends-update j _)
        (Ends-bind (Ends-select j) (λ row. Ends-bind (Ends-some_or row _) (λ ws. Ends-pure _)))))

  Ends-supervisor :
      (h : SandboxHandle) (ws : Workspace) (mode : Text)
      → Ends t (start_supervisor {p = p} h ws mode)
  unfolding start_supervisor
  Ends-supervisor h ws mode = Ends-bind (Ends-rotate ws.id) (λ minted.
      Ends-bind (Ends-call _ (prompt.commands h _))
        (λ cmd. Ends-bind Ends-now (λ u. Ends-then (Ends-update ws.id _) (Ends-pure _))))

  Ends-hook : (ws : Workspace) (o : Option (SandboxHandle × Bool)) → Ends t (run_hook {p = p} ws o)
  unfolding run_hook
  Ends-hook ws none = Ends-pure none
  Ends-hook ws (some (h, false)) = Ends-pure _
  Ends-hook ws (some (h, true)) = Ends-bind (Ends-supervisor h ws _) (λ started. Ends-pure _)

  Ends-alive : (h : SandboxHandle) (cmd : Text) → Ends t (command_alive {p = p} h cmd)
  unfolding command_alive
  Ends-alive h cmd =
      Ends-catch
        (Ends-bind (Ends-call _ (prompt.timely.waits h cmd 1000)) (λ code. Ends-pure false))
        (λ e. Ends-pure _)

  Ends-reuse :
      (h : SandboxHandle) (ws : Workspace) (o : Option Text)
      → Ends t (reuse_or_start {p = p} h ws o)
  unfolding reuse_or_start
  Ends-reuse h ws none = Ends-supervisor h ws _
  Ends-reuse h ws (some cmd) = Ends-bind (Ends-alive h cmd) chosen
    where
      chosen : (b : Bool) → Ends t (reuse_if {p = p} h ws cmd b)
      chosen true = Ends-pure _
      chosen false = Ends-supervisor h ws _

  Ends-ensure :
      (j : Text) (h : SandboxHandle) (o : Option Started) → Ends t (ensure_started {p = p} j h o)
  unfolding ensure_started
  Ends-ensure j h (some started) = Ends-pure started
  Ends-ensure j h none = Ends-bind (Ends-load_row j) (λ ws. Ends-reuse h ws ws.supervisor_cmd_id)

  Ends-resumed :
      (j : Text) (o : Option (SandboxHandle × Option Started)) → Ends t (resumed_with {p = p} j o)
  unfolding resumed_with
  Ends-resumed j none = Ends-pure none
  Ends-resumed j (some (h, hook)) =
      Ends-bind (Ends-ensure j h hook)
        (λ started. Ends-bind (Ends-hosts_of h) (λ hosts. Ends-pure _))

  pub Ends-resume : (j name : Text) → Ends t (step_resume_sandbox {p = p} j name)
  unfolding step_resume_sandbox
  Ends-resume j name = Ends-bind (Ends-load_row j) (λ ws.
      Ends-bind
        (Ends-or_fail
          (Ends-bind (Ends-call (p.get name true) (prompt.timely.gets name true)) (Ends-hook ws)))
        (Ends-resumed j))

  pub Ends-start : (j name : Text) → Ends t (step_start_supervisor {p = p} j name)
  unfolding step_start_supervisor
  Ends-start j name = Ends-bind (Ends-load_row j) (λ ws.
      Ends-bind (Ends-or_fail (Ends-get prompt.timely name false))
        (λ found. Ends-bind (Ends-some_or found _) (λ h. Ends-supervisor h ws _)))

  Ends-adopt :
      (input : CreateSandboxInput) (h : SandboxHandle) (b : Bool)
      → Ends t (adopt_created {p = p} input h b)
  unfolding adopt_created
  Ends-adopt input h true = Ends-pure h
  Ends-adopt input h false =
      Ends-bind (Ends-or_fail (Ends-get prompt.timely input.name true)) (λ o. Ends-some_or o _)

  pub Ends-create : (input : CreateSandboxInput) → Ends t (step_create_sandbox {p = p} input)
  unfolding step_create_sandbox
  Ends-create input =
      Ends-bind (Ends-or_fail (Ends-call (p.create input) (prompt.creates input)))
        (λ h. Ends-bind (Ends-adopt input h _) Ends-hosts_of)

  pub Ends-signal :
      (name : Text) (cmd : Option Text) → Ends t (step_signal_supervisor {p = p} name cmd)
  unfolding step_signal_supervisor signal
  Ends-signal name none = Ends-pure tt
  Ends-signal name (some cmd) =
      Ends-bind (Ends-or_else none (Ends-get prompt.timely name false)) signalled
    where
      signalled : (o : Option SandboxHandle) → Ends t (signal {p = p} o cmd)
      signalled none = Ends-pure tt
      signalled (some h) =
          Ends-when (is_running h.status) (Ends-or_else tt (Ends-call _ (prompt.kills h cmd)))

  pub Ends-stop : (name : Text) → Ends t (step_stop_sandbox {p = p} name)
  unfolding step_stop_sandbox stop_found
  Ends-stop name = Ends-bind (Ends-or_fail (Ends-get prompt.timely name false)) found
    where
      stopped : (h : SandboxHandle) (b : Bool) → Ends t (stop_if {p = p} h b)
      stopped h true = Ends-pure _
      stopped h false = Ends-bind (Ends-call _ (prompt.stops h)) (λ res. Ends-pure _)

      found : (o : Option SandboxHandle) → Ends t (stop_found {p = p} o)
      found none = Ends-pure none
      found (some h) = stopped h (is_gone h.status)
