-- ===== src/Workflows/Keeps.antt =====
-- What the workflows keep of a workspace's row and of the removals, whatever the platform does.
use zedspaces.Base.{◌+◌, ℕ, zero, suc, true, false, Text, Option, none, some, refl, List}
use zedspaces.Schema.{Workspace, WorkspaceState}
use zedspaces.Kv
use zedspaces.Health.{HealthProbe}
use zedspaces.Effects.{Platform, Removal, M, World, Res, ok, err, hung, RunStatus, Error}
use zedspaces.Effects.Hoare.{After}
use zedspaces.Effects.Keeps.{
  Inv, Keeps, Keeps-bind, Keeps-then, Keeps-pure, Keeps-throw, Keeps-catch, Keeps-when, Keeps-call,
  Keeps-now, Keeps-pause, Keeps-get_db, Keeps-modify, Keeps-some_or, Keeps-hang, Keeps-if,
}
use zedspaces.Steps.Db.{SessionHosts, no_patch, with_state, with_session, marked_stopped}
use zedspaces.Steps.Keeps.{
  IsCalm, IsReasonFree, Keeps-load, Keeps-set_state, Keeps-record_session, Keeps-mark_stopped,
  Keeps-session_end, Keeps-pick_image, Keeps-build_create_input, Keeps-create, Keeps-start,
  Keeps-resume, Keeps-probe, Keeps-wait, Keeps-signal_supervisor, Keeps-stop,
}
use zedspaces.Workflows.Child.{
  start_unless, child_token_ttl_ms, step_start_child, step_child_status, poll_child, is_terminal,
  await_child, Settled, returned, threw, settled, child_result, run_child,
}
use zedspaces.Workflows.Ready.{Boot, accept_build, not_yet, is_serving, ready_round, wait_ready}
use zedspaces.Workflows.Create.{restore_patch, abandon, boot_created}
use zedspaces.Workflows.Connect.{boot_resumed, connect_workspace}
use zedspaces.Workflows.Stop.{
  StopReason, shutdown_round, wait_shutdown, await_supervisor, shut_down, stop_workspace,
}

-- A property of the row that booting, stopping and the plain state changes do not touch.
pub record IsSteady (φ : Workspace → Type 0) : Type 0 where
  pub calm : IsCalm φ
  pub free : IsReasonFree φ
  pub state :
      (s : WorkspaceState) (reason : Option (Option Text)) (t : ℕ) (r : Workspace)
      → φ r
      → φ (with_state s reason no_patch t r)
  pub session :
      (s : WorkspaceState) (reason : Option Text) (hosts : SessionHosts)
      (cmd : Option (Option Text)) (t : ℕ) (r : Workspace)
      → φ r
      → φ (with_session s reason hosts none cmd t r)
  pub stop :
      (reason : Text) (s : WorkspaceState) (size : Option (Option ℕ)) (days t : ℕ) (r : Workspace)
      → φ r
      → φ (marked_stopped reason s size days t r)

module _ {p : Platform} {id : Text} {φ : Workspace → Type 0} {ρ : List Removal → Type 0} where
  Keeps-start_unless :
      (name key : Text) (o : Option Text) → Keeps id φ ρ (start_unless {p = p} name key o)
  unfolding start_unless
  Keeps-start_unless name key (some run_id) = Keeps-pure run_id
  Keeps-start_unless name key none = Keeps-bind (Keeps-call (p.start name)) λ run_id.
      Keeps-bind Keeps-now λ t.
        Keeps-then
          (Keeps-modify
            (λ d. record d { kv = (Kv.set key run_id (some child_token_ttl_ms) false t d.kv).0 })
            (λ db. refl))
          (Keeps-pure run_id)

  Keeps-start_child : (token name : Text) → Keeps id φ ρ (step_start_child {p = p} token name)
  unfolding step_start_child
  Keeps-start_child token name =
      Keeps-bind Keeps-now λ t. Keeps-bind Keeps-get_db λ db. Keeps-start_unless name _ _

  pub Keeps-status : (run_id : Text) → Keeps id φ ρ (step_child_status {p = p} run_id)
  unfolding step_child_status
  Keeps-status run_id = record { triple = λ w h. h }

  Keeps-poll :
      (name : Text) (started_at : ℕ) (again : M p (Unit {0})) (status : RunStatus)
      → Keeps id φ ρ again
      → Keeps id φ ρ (poll_child name started_at again status)
  unfolding poll_child
  Keeps-poll name started_at again status h = Keeps-bind Keeps-now λ t.
      Keeps-if (is_terminal status) (Keeps-pure tt)
        (Keeps-if _ (Keeps-throw _) (Keeps-then (Keeps-pause 5000) h))

  Keeps-await :
      (fuel : ℕ) (name run_id : Text) (started_at : ℕ)
      → Keeps id φ ρ (await_child {p = p} fuel name run_id started_at)
  unfolding await_child
  Keeps-await zero name run_id started_at = Keeps-hang
  Keeps-await (suc fuel) name run_id started_at =
      Keeps-bind (Keeps-status run_id)
        (λ status. Keeps-poll name started_at _ status (Keeps-await fuel name run_id started_at))

  Keeps-settled : {m : M p (Unit {0})} → Keeps id φ ρ m → Keeps id φ ρ (λ w. settled (m w))
  unfolding settled
  Keeps-settled {m = m} h = record { triple = λ w pw. go (m w) (h.triple w pw) }
    where
      go :
          (x : World p × Res (Unit {0}))
          → After (λ _. Inv id φ ρ) (Inv id φ ρ) x
          → After (λ _. Inv id φ ρ) (Inv id φ ρ) (settled x)
      go (w, ok a) h = h
      go (w, err e) h = h
      go (w, hung) h = tt

  Keeps-result : (name : Text) (s : Settled) → Keeps id φ ρ (child_result {p = p} name s)
  unfolding child_result
  Keeps-result name returned = Keeps-pure tt
  Keeps-result name (threw e) = Keeps-throw _

  pub Keeps-run_child :
      (fuel : ℕ) (name : Text) (body : M p (Unit {0}))
      → Keeps id φ ρ body
      → Keeps id φ ρ (run_child fuel name body)
  unfolding run_child
  Keeps-run_child fuel name body h = Keeps-bind (Keeps-call p.random) λ token.
      Keeps-bind (Keeps-start_child token name) λ run_id. Keeps-bind (Keeps-settled h) λ end.
        Keeps-bind Keeps-now
          λ started_at. Keeps-then (Keeps-await fuel name run_id started_at) (Keeps-result name end)

  Keeps-accept : (b : Boot) (build : Option Text) → Keeps id φ ρ (accept_build {p = p} b build)
  unfolding accept_build
  Keeps-accept b build = Keeps-if _ (Keeps-pure tt) (Keeps-throw _)

  Keeps-not_yet :
      (b : Boot) (health : Option HealthProbe) (again : M p (Unit {0})) (exit : Option ℕ)
      → Keeps id φ ρ again
      → Keeps id φ ρ (not_yet b health again exit)
  unfolding not_yet
  Keeps-not_yet b health again (some code) h = Keeps-throw _
  Keeps-not_yet b health again none h =
      Keeps-bind Keeps-now λ t. Keeps-if _ (Keeps-throw _) (Keeps-then (Keeps-pause 5000) h)

  Keeps-ready_round :
      (b : Boot) (again : M p (Unit {0})) (health : Option HealthProbe)
      → Keeps id φ ρ again
      → Keeps id φ ρ (ready_round b again health)
  unfolding ready_round
  Keeps-ready_round b again health h =
      Keeps-if (is_serving health) (Keeps-accept b _)
        (Keeps-bind (Keeps-wait _ _ _) (λ exit. Keeps-not_yet b health again exit h))

  Keeps-shutdown_round :
      (deadline : ℕ) (again : M p (Unit {0})) (health : Option HealthProbe)
      → Keeps id φ ρ again
      → Keeps id φ ρ (shutdown_round deadline again health)
  unfolding shutdown_round
  Keeps-shutdown_round deadline again health h =
      Keeps-bind Keeps-now λ t. Keeps-if _ (Keeps-pure tt) (Keeps-then (Keeps-pause 2000) h)

  pub Keeps-abandon : (j : Text) (e : Error) → Keeps id φ ρ (abandon {p = p} j true e)
  unfolding abandon
  Keeps-abandon j e = Keeps-then (Keeps-pure tt) (Keeps-throw e)

  module _ (steady : IsSteady φ) where
    pub Keeps-wait_ready : (fuel : ℕ) (b : Boot) → Keeps id φ ρ (wait_ready {p = p} fuel b)
    unfolding wait_ready
    Keeps-wait_ready zero b = Keeps-hang
    Keeps-wait_ready (suc fuel) b =
        Keeps-bind (Keeps-probe steady.free _ _)
          (λ health. Keeps-ready_round b _ health (Keeps-wait_ready fuel b))

    pub Keeps-boot_resumed :
        (fuel : ℕ) (ws : Workspace) (ceiling : Option ℕ)
        → Keeps id φ ρ (boot_resumed {p = p} fuel ws ceiling)
    unfolding boot_resumed
    Keeps-boot_resumed fuel ws ceiling =
        Keeps-then (Keeps-set_state ws.id _ _ no_patch (steady.state _ _)) (
          Keeps-bind (Keeps-resume steady.calm ws.id ws.sandbox_name) λ found.
            Keeps-bind (Keeps-some_or found _) λ resumed.
              Keeps-then (Keeps-record_session ws.id _ _ _ none _ (steady.session _ _ _ _)) (
                Keeps-bind Keeps-now λ t.
                  Keeps-then (Keeps-wait_ready fuel _)
                    (Keeps-set_state ws.id _ _ no_patch (steady.state _ _))))

    pub Keeps-connect :
        (fuel : ℕ) (j : Text) (ceiling : Option ℕ)
        → Keeps id φ ρ (
            connect_workspace {p = p} fuel
              (record { workspace_id = j; child = true; ready_ceiling_ms = ceiling }))
    unfolding connect_workspace
    Keeps-connect fuel j ceiling =
        Keeps-catch
          (Keeps-bind (Keeps-load j)
            λ ws. Keeps-then (Keeps-boot_resumed fuel ws ceiling) (Keeps-pure tt))
          (Keeps-abandon j)

    pub Keeps-boot_created :
        (fuel : ℕ) (ws : Workspace) (ceiling : Option ℕ)
        → ((s : WorkspaceState) (reason : Option Text) (hosts : SessionHosts)
              (cmd : Option (Option Text)) (t : ℕ) (r : Workspace)
            → φ r
            → φ (with_session s reason hosts (some ws.restore_kind) cmd t r))
        → ((s : WorkspaceState) (reason : Option (Option Text)) (t : ℕ) (r : Workspace)
            → φ r
            → φ (with_state s reason (restore_patch ws.previous_sandbox_name) t r))
        → Keeps id φ ρ (boot_created {p = p} fuel ws ceiling)
    unfolding boot_created
    Keeps-boot_created fuel ws ceiling session end = Keeps-bind (Keeps-pick_image ws.id) λ image.
        Keeps-bind (Keeps-build_create_input ws.id image) λ input.
          Keeps-bind (Keeps-create input) λ created.
            Keeps-then (Keeps-record_session ws.id _ _ created _ none (session _ _ created none)) (
              Keeps-bind (Keeps-start steady.calm ws.id ws.sandbox_name) λ started.
                Keeps-bind Keeps-now
                  λ t. Keeps-then (Keeps-wait_ready fuel _) (Keeps-set_state ws.id _ _ _ (end _ _)))

    Keeps-await_supervisor :
        (fuel : ℕ) (ws : Workspace) (cmd host : Option Text)
        → Keeps id φ ρ (await_supervisor {p = p} fuel ws cmd host)
    unfolding await_supervisor wait_shutdown
    Keeps-await_supervisor fuel ws (some cmd) host =
        Keeps-bind (Keeps-wait _ cmd _) (λ exit. Keeps-pure tt)
    Keeps-await_supervisor fuel ws none (some host) =
        Keeps-bind Keeps-now (λ t. Keeps-wait_shutdown fuel host (t + 25000))
      where
        Keeps-wait_shutdown :
            (n : ℕ) (host : Text) (deadline : ℕ)
            → Keeps id φ ρ (wait_shutdown {p = p} n ws.id host deadline)
        Keeps-wait_shutdown zero host deadline = Keeps-hang
        Keeps-wait_shutdown (suc n) host deadline =
            Keeps-bind (Keeps-probe steady.free _ _)
              (λ health. Keeps-shutdown_round _ _ health (Keeps-wait_shutdown n host deadline))
    Keeps-await_supervisor fuel ws none none = Keeps-pure tt

    Keeps-shut_down :
        (fuel : ℕ) (ws : Workspace) (reason : StopReason)
        → Keeps id φ ρ (shut_down {p = p} fuel ws reason)
    unfolding shut_down
    Keeps-shut_down fuel ws reason =
        Keeps-then (Keeps-set_state ws.id _ _ no_patch (steady.state _ _)) (
          Keeps-then (Keeps-signal_supervisor ws.sandbox_name ws.supervisor_cmd_id) (
            Keeps-then (Keeps-await_supervisor fuel ws _ _) (
              Keeps-bind (Keeps-stop ws.sandbox_name) λ res.
                Keeps-then (Keeps-session_end ws.id _)
                  (Keeps-mark_stopped ws.id _ _ _ (steady.stop _ _ _)))))

    pub Keeps-stop_workspace :
        (fuel : ℕ) (j : Text) (reason : StopReason)
        → Keeps id φ ρ (
            stop_workspace {p = p} fuel
              (record { workspace_id = j; reason = reason; child = true }))
    unfolding stop_workspace
    Keeps-stop_workspace fuel j reason =
        Keeps-catch
          (Keeps-bind (Keeps-load j)
            λ ws. Keeps-then (Keeps-when _ (Keeps-shut_down fuel ws reason)) (Keeps-pure tt))
          (Keeps-abandon j)
