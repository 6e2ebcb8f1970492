-- ===== src/Workflows/Children.antt =====
-- What a workflow that another one runs leaves alone: the parent's claim on the workspace, which
-- only the parent clears.
use zedspaces.Base.{ℕ, true, Text, Option, ◌≡◌}
use zedspaces.Schema.{Workspace}
use zedspaces.Effects.{Platform}
use zedspaces.Effects.Keeps.{Inv, Keeps, Keeps-bind, Keeps-then, Keeps-pure, Keeps-catch}
use zedspaces.Effects.Hoare.{Triple}
use zedspaces.Steps.Db.{with_state, with_session, marked_stopped}
use zedspaces.Steps.Supervisor.{rotated, with_command}
use zedspaces.Steps.Commands.{boot_reason}
use zedspaces.Steps.Keeps.{Keeps-load}
use zedspaces.Workflows.Create.{create_workspace}
use zedspaces.Workflows.Connect.{connect_workspace}
use zedspaces.Workflows.Stop.{StopReason, stop_workspace}
use zedspaces.Workflows.Keeps.{
  IsSteady, Keeps-connect, Keeps-stop_workspace, Keeps-boot_created, Keeps-abandon,
}

-- The run `v` owns the workspace.
abbrev pub IsOwned : Option Text → Workspace → Type 0
IsOwned v r = r.workflow_run_id ≡ v

IsOwned-IsSteady : (v : Option Text) → IsSteady (IsOwned v)
unfolding with_state with_session marked_stopped rotated with_command boot_reason
IsOwned-IsSteady v = record {
  calm = record { rotate = λ hash t r h. h; command = λ cmd t r h. h };
  free = λ reason t r h. h;
  state = λ s reason t r h. h;
  session = λ s reason hosts cmd t r h. h;
  stop = λ reason s size days t r h. h;
}

module _ {p : Platform} (id : Text) (v : Option Text) where
  -- A stop run as a child, whether it returns or throws, leaves the run that owns the workspace on
  -- its row.
  pub stop_child-keeps_run :
      (fuel : ℕ) (reason : StopReason)
      → Triple {p = p}
          (Inv id (IsOwned v) (λ _. Unit))
          (stop_workspace fuel (record { workspace_id = id; reason = reason; child = true }))
          (λ _. Inv id (IsOwned v) (λ _. Unit))
          (Inv id (IsOwned v) (λ _. Unit))
  stop_child-keeps_run fuel reason =
      (Keeps-stop_workspace (IsOwned-IsSteady v) fuel id reason).triple

  -- A connect run as a child, whether it returns or throws, leaves the run that owns the workspace
  -- on its row.
  pub connect_child-keeps_run :
      (fuel : ℕ) (ceiling : Option ℕ)
      → Triple {p = p}
          (Inv id (IsOwned v) (λ _. Unit))
          (connect_workspace fuel
            (record { workspace_id = id; child = true; ready_ceiling_ms = ceiling }))
          (λ _. Inv id (IsOwned v) (λ _. Unit))
          (Inv id (IsOwned v) (λ _. Unit))
  connect_child-keeps_run fuel ceiling = (Keeps-connect (IsOwned-IsSteady v) fuel id ceiling).triple

  Keeps-create :
      (fuel : ℕ) (ceiling : Option ℕ)
      → Keeps {p = p} id
          (IsOwned v)
          (λ _. Unit)
          (create_workspace fuel
            (record { workspace_id = id; child = true; ready_ceiling_ms = ceiling }))
  unfolding create_workspace with_session with_state
  Keeps-create fuel ceiling =
      Keeps-catch
        (Keeps-bind (Keeps-load id) λ ws.
          Keeps-then
            (Keeps-boot_created (IsOwned-IsSteady v) fuel ws ceiling (λ s reason hosts cmd t r h. h)
              (λ s reason t r h. h))
            (Keeps-pure tt))
        (Keeps-abandon id)

  -- A create run as a child, whether it returns or throws, leaves the run that owns the workspace
  -- on its row.
  pub create_child-keeps_run :
      (fuel : ℕ) (ceiling : Option ℕ)
      → Triple {p = p}
          (Inv id (IsOwned v) (λ _. Unit))
          (create_workspace fuel
            (record { workspace_id = id; child = true; ready_ceiling_ms = ceiling }))
          (λ _. Inv id (IsOwned v) (λ _. Unit))
          (Inv id (IsOwned v) (λ _. Unit))
  create_child-keeps_run fuel ceiling = (Keeps-create fuel ceiling).triple
