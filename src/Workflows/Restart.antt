-- ===== src/Workflows/Restart.antt =====
-- apps/web/workflows/restart-session.ts
use zedspaces.Base.{ℕ, true, false, Text, lit, none}
use zedspaces.Effects.{Platform, M, ◌>>◌, catch}
use zedspaces.Steps.Db.{done, step_finish_run}
use zedspaces.Workflows.Child.{run_child}
use zedspaces.Workflows.Create.{abandon}
use zedspaces.Workflows.Connect.{connect_workspace}
use zedspaces.Workflows.Stop.{StopReason, stop_workspace}

module _ {p : Platform} where
  unfoldable pub stop_child : ℕ → Text → M p (Unit {0})
  stop_child fuel id =
      run_child fuel (lit "stopWorkspace")
        (stop_workspace fuel (record { workspace_id = id; reason = StopReason.cap; child = true }))

  unfoldable pub connect_child : ℕ → Text → M p (Unit {0})
  connect_child fuel id =
      run_child fuel (lit "connectWorkspace") (
        connect_workspace fuel
          (record { workspace_id = id; child = true; ready_ceiling_ms = none }))

  unfoldable pub restart_session : ℕ → Text → M p (Unit {0})
  restart_session fuel id =
      catch (do stop_child fuel id; connect_child fuel id; step_finish_run id done)
        (abandon id false)
