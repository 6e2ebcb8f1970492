-- ===== src/Workflows/Ended.antt =====
-- The lifecycle workflows end: a whole run with fuel for its polling loop does not hang.
use zedspaces.Base.{ℕ, suc, ◌+◌, ◌*◌, ◌<◌, Text, Option, none, some, get_or, arith}
use zedspaces.Schema.{Workspace}
use zedspaces.Effects.{Platform}
use zedspaces.Effects.Ends.{
  IsPrompt, Ends, Ends-bind, Ends-then, Ends-pure, Ends-catch, Ends-when, Ends-at, Ends-some_or,
}
use zedspaces.Workflows.Create.{
  CreateWorkspaceRun, create_ceiling_ms, boot_created, create_workspace,
}
use zedspaces.Workflows.Connect.{
  ConnectWorkspaceRun, resume_ceiling_ms, boot_resumed, connect_workspace,
}
use zedspaces.Workflows.Stop.{StopWorkspaceRun, await_supervisor, shut_down, stop_workspace}
use zedspaces.Workflows.Loops.{Ends-wait, wait_ready-Ends, wait_shutdown-Ends}
use zedspaces.Workflows.Prompt.{
  Ends-load, Ends-set_state, Ends-finish, Ends-abandon, Ends-pick_image, Ends-create_input,
  Ends-record, Ends-mark_stopped, Ends-session_end, Ends-create, Ends-start, Ends-resume,
  Ends-signal, Ends-stop,
}

module _ {p : Platform} (prompt : IsPrompt p) {t : ℕ} where
  Ends-boot_created :
      (fuel : ℕ) (ws : Workspace) (ceiling : Option ℕ)
      → get_or create_ceiling_ms ceiling < fuel * 5000
      → Ends t (boot_created {p = p} (suc fuel) ws ceiling)
  unfolding boot_created
  Ends-boot_created fuel ws ceiling enough = Ends-bind (Ends-pick_image ws.id) (λ image.
      Ends-bind (Ends-create_input ws.id image) (λ input.
        Ends-bind (Ends-create prompt input) (λ created. Ends-then (Ends-record ws.id _ _ _ _ _) (
          Ends-bind (Ends-start prompt ws.id ws.sandbox_name) (λ started. Ends-at (λ u le.
            Ends-then (wait_ready-Ends prompt.timely fuel u _ (omega (arith, enough)))
              (Ends-set_state ws.id _ _ _)))))))

  -- On a platform whose calls answer and whose clock does not go back, a whole run of
  -- `createWorkspace`, started at a time `t` or later, does not hang if its readiness ceiling (35
  -- minutes if the input gives none) is less than five seconds for each unit of fuel but the last:
  -- it returns or throws, and it does not set the clock back before `t`.
  pub create_workspace-Ends :
      (fuel : ℕ) (input : CreateWorkspaceRun)
      → get_or create_ceiling_ms input.ready_ceiling_ms < fuel * 5000
      → Ends t (create_workspace {p = p} (suc fuel) input)
  unfolding create_workspace
  create_workspace-Ends fuel input enough =
      Ends-catch
        (Ends-bind (Ends-load input.workspace_id) (λ ws.
          Ends-then (Ends-boot_created fuel ws input.ready_ceiling_ms enough)
            (Ends-when _ (Ends-finish ws.id _))))
        (Ends-abandon input.workspace_id input.child)

  Ends-boot_resumed :
      (fuel : ℕ) (ws : Workspace) (ceiling : Option ℕ)
      → get_or resume_ceiling_ms ceiling < fuel * 5000
      → Ends t (boot_resumed {p = p} (suc fuel) ws ceiling)
  unfolding boot_resumed
  Ends-boot_resumed fuel ws ceiling enough = Ends-then (Ends-set_state ws.id _ _ _) (
      Ends-bind (Ends-resume prompt ws.id ws.sandbox_name) (λ found.
        Ends-bind (Ends-some_or found _) (λ resumed. Ends-then (Ends-record ws.id _ _ _ _ _) (
          Ends-at (λ u le.
            Ends-then (wait_ready-Ends prompt.timely fuel u _ (omega (arith, enough)))
              (Ends-set_state ws.id _ _ _))))))

  -- On a platform whose calls answer and whose clock does not go back, a whole run of
  -- `connectWorkspace`, started at a time `t` or later, does not hang if its readiness ceiling
  -- (three minutes if the input gives none) is less than five seconds for each unit of fuel but the
  -- last: it returns or throws, and it does not set the clock back before `t`.
  pub connect_workspace-Ends :
      (fuel : ℕ) (input : ConnectWorkspaceRun)
      → get_or resume_ceiling_ms input.ready_ceiling_ms < fuel * 5000
      → Ends t (connect_workspace {p = p} (suc fuel) input)
  unfolding connect_workspace
  connect_workspace-Ends fuel input enough =
      Ends-catch
        (Ends-bind (Ends-load input.workspace_id) (λ ws.
          Ends-then (Ends-boot_resumed fuel ws input.ready_ceiling_ms enough)
            (Ends-when _ (Ends-finish ws.id _))))
        (Ends-abandon input.workspace_id input.child)

  Ends-await :
      (fuel : ℕ) (ws : Workspace) (cmd host : Option Text)
      → 25000 < fuel * 2000
      → Ends t (await_supervisor {p = p} (suc fuel) ws cmd host)
  unfolding await_supervisor
  Ends-await fuel ws (some cmd) host enough =
      Ends-bind (Ends-wait prompt.timely ws.sandbox_name cmd 25000) (λ exit. Ends-pure tt)
  Ends-await fuel ws none (some host) enough = Ends-at (λ u le.
      wait_shutdown-Ends prompt.timely fuel u ws.id host (u + 25000) (omega (arith, enough)))
  Ends-await fuel ws none none enough = Ends-pure tt

module _ {p : Platform} (prompt : IsPrompt p) {t : ℕ} where
  Ends-shut_down :
      (fuel : ℕ) (input : StopWorkspaceRun) (ws : Workspace)
      → 25000 < fuel * 2000
      → Ends t (shut_down {p = p} (suc fuel) ws input.reason)
  unfolding shut_down
  Ends-shut_down fuel input ws enough = Ends-then (Ends-set_state ws.id _ _ _) (
      Ends-then (Ends-signal prompt ws.sandbox_name ws.supervisor_cmd_id) (
        Ends-then (Ends-await prompt fuel ws ws.supervisor_cmd_id ws.current_health_host enough) (
          Ends-bind (Ends-stop prompt ws.sandbox_name)
            (λ res. Ends-then (Ends-session_end ws.id _) (Ends-mark_stopped ws.id _ _ _)))))

  -- On a platform whose calls answer and whose clock does not go back, a whole run of
  -- `stopWorkspace`, started at a time `t` or later, does not hang if the fuel but the last unit
  -- gives more than 25 seconds at two seconds each: it returns or throws, and it does not set the
  -- clock back before `t`.
  pub stop_workspace-Ends :
      (fuel : ℕ) (input : StopWorkspaceRun)
      → 25000 < fuel * 2000
      → Ends t (stop_workspace {p = p} (suc fuel) input)
  unfolding stop_workspace
  stop_workspace-Ends fuel input enough =
      Ends-catch
        (Ends-bind (Ends-load input.workspace_id) (λ ws.
          Ends-then (Ends-when _ (Ends-shut_down fuel input ws enough))
            (Ends-when _ (Ends-finish ws.id _))))
        (Ends-abandon input.workspace_id input.child)
