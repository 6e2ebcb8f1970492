-- ===== src/Examples/Runs.antt =====
-- The workflows' theorems on the demonstration workspace.
use zedspaces.Base.{true, false, Text, lit, none, some, ◌≡◌, ◌≢◌, refl, text_eq, text_eq_iff}
use zedspaces.Schema.{new_sandbox_name}
use zedspaces.Effects.Hoare.{After}
use zedspaces.Effects.Table.{RowHas}
use zedspaces.Effects.Keeps.{Inv}
use zedspaces.Workflows.Create.{create_workspace}
use zedspaces.Workflows.Connect.{connect_workspace}
use zedspaces.Workflows.Stop.{StopReason, stop_workspace}
use zedspaces.Workflows.Delete.{delete_workspace}
use zedspaces.Workflows.Rebuild.{rebuild_workspace, stand_up}
use zedspaces.Workflows.Restart.{restart_session}
use zedspaces.Workflows.Ending.{
  IsReleased, IsFailed, create-releases_run, connect-releases_run, stop-releases_run,
  delete-releases_run, rebuild-releases_run, restart-releases_run,
}
use zedspaces.Workflows.Children.{
  IsOwned, stop_child-keeps_run, connect_child-keeps_run, create_child-keeps_run,
}
use zedspaces.Workflows.Safety.{IsBackedUp, IsSafe, retry_rebuild-keeps_backup}
use zedspaces.Workflows.Rebuilding.{IsCurrent, Named, Recoverable, first_rebuild-Recoverable}
use zedspaces.Examples.Demo.{
  demo, demo_env, demo_id, demo_workspace, bumped_workspace, demo_release, world_of,
}

create-releases_run_example :
    After
      (λ _. RowHas demo_id IsReleased)
      (RowHas demo_id IsFailed)
      (create_workspace {p = demo} 2
        (record { workspace_id = demo_id; child = false; ready_ceiling_ms = none })
        (world_of demo_workspace))
create-releases_run_example =
    create-releases_run {p = demo} 2 demo_id none (world_of demo_workspace) tt

connect-releases_run_example :
    After
      (λ _. RowHas demo_id IsReleased)
      (RowHas demo_id IsFailed)
      (connect_workspace {p = demo} 2
        (record { workspace_id = demo_id; child = false; ready_ceiling_ms = none })
        (world_of demo_workspace))
connect-releases_run_example =
    connect-releases_run {p = demo} 2 demo_id none (world_of demo_workspace) tt

stop-releases_run_example :
    After
      (λ _. RowHas demo_id IsReleased)
      (RowHas demo_id IsFailed)
      (stop_workspace {p = demo} 2
        (record { workspace_id = demo_id; reason = StopReason.idle; child = false })
        (world_of demo_workspace))
stop-releases_run_example =
    stop-releases_run {p = demo} 2 demo_id StopReason.idle (world_of demo_workspace) tt

delete-releases_run_example :
    After
      (λ _. RowHas demo_id IsReleased)
      (RowHas demo_id IsFailed)
      (delete_workspace {p = demo} 2
        (record { workspace_id = demo_id; child = false })
        (world_of demo_workspace))
delete-releases_run_example = delete-releases_run {p = demo} 2 demo_id (world_of demo_workspace) tt

rebuild-releases_run_example :
    After
      (λ _. RowHas demo_id IsReleased)
      (RowHas demo_id IsFailed)
      (rebuild_workspace {p = demo} 2
        (record { workspace_id = demo_id; upgrade = some demo_release })
        (world_of demo_workspace))
rebuild-releases_run_example =
    rebuild-releases_run {p = demo} 2 demo_id (some demo_release) (world_of demo_workspace) tt

restart-releases_run_example :
    After
      (λ _. RowHas demo_id IsReleased)
      (RowHas demo_id IsFailed)
      (restart_session {p = demo} 2 demo_id (world_of demo_workspace))
restart-releases_run_example =
    restart-releases_run {p = demo} 2 demo_id (world_of demo_workspace) tt

stop_child-keeps_run_example :
    After
      (λ _. Inv demo_id (IsOwned (some (lit "run"))) (λ _. Unit))
      (Inv demo_id (IsOwned (some (lit "run"))) (λ _. Unit))
      (stop_workspace {p = demo} 2
        (record { workspace_id = demo_id; reason = StopReason.cap; child = true })
        (world_of demo_workspace))
stop_child-keeps_run_example =
    stop_child-keeps_run {p = demo} demo_id (some (lit "run")) 2 StopReason.cap
      (world_of demo_workspace) (((λ _. refl), tt), tt)

connect_child-keeps_run_example :
    After
      (λ _. Inv demo_id (IsOwned (some (lit "run"))) (λ _. Unit))
      (Inv demo_id (IsOwned (some (lit "run"))) (λ _. Unit))
      (connect_workspace {p = demo} 2
        (record { workspace_id = demo_id; child = true; ready_ceiling_ms = none })
        (world_of demo_workspace))
connect_child-keeps_run_example =
    connect_child-keeps_run {p = demo} demo_id (some (lit "run")) 2 none (world_of demo_workspace)
      (((λ _. refl), tt), tt)

create_child-keeps_run_example :
    After
      (λ _. Inv demo_id (IsOwned (some (lit "run"))) (λ _. Unit))
      (Inv demo_id (IsOwned (some (lit "run"))) (λ _. Unit))
      (create_workspace {p = demo} 2
        (record { workspace_id = demo_id; child = true; ready_ceiling_ms = none })
        (world_of demo_workspace))
create_child-keeps_run_example =
    create_child-keeps_run {p = demo} demo_id (some (lit "run")) 2 none (world_of demo_workspace)
      (((λ _. refl), tt), tt)

names_differ : lit "new" ≢ lit "old"
unfolding lit text_eq
names_differ e = clash ((text_eq_iff (lit "new") (lit "old")).1 e)
  where
    clash : false ≡ true → ⊥
    clash q = cc

bumped_workspace-IsBackedUp : IsBackedUp (lit "old") (lit "archive") bumped_workspace
bumped_workspace-IsBackedUp = record {
  previous = refl;
  kind = refl;
  archive = refl;
  other = names_differ;
}

retry_rebuild-keeps_backup_example :
    After
      (λ _. IsSafe demo_id (lit "old") (lit "archive"))
      (IsSafe demo_id (lit "old") (lit "archive"))
      (stand_up {p = demo} 2 bumped_workspace demo_release (world_of bumped_workspace))
retry_rebuild-keeps_backup_example =
    retry_rebuild-keeps_backup {p = demo} demo_id (lit "old") (lit "archive") 2 bumped_workspace
      demo_release refl bumped_workspace-IsBackedUp (world_of bumped_workspace)
      (((λ _. bumped_workspace-IsBackedUp), tt), tt)

abbrev demo_sandbox : Text
demo_sandbox = new_sandbox_name demo_env demo_id 1

demo_workspace-IsCurrent : IsCurrent demo_env demo_sandbox demo_workspace
demo_workspace-IsCurrent = record { named = refl; current = refl; settled = refl }

first_rebuild-Recoverable_example :
    After
      (Named {p = demo} demo_id demo_sandbox)
      (Recoverable {p = demo} demo_id demo_sandbox)
      (stand_up {p = demo} 2 demo_workspace demo_release (world_of demo_workspace))
first_rebuild-Recoverable_example =
    first_rebuild-Recoverable {p = demo} demo_id demo_sandbox 2 demo_workspace demo_release refl
      refl (world_of demo_workspace) (((λ _. demo_workspace-IsCurrent), tt), tt)
