-- ===== src/Examples/Admission.antt =====
-- Admission and the collector at one workspace.
use zedspaces.Base.{
  ◌≤◌, Text, lit, none, some, List, [], ◌∷◌, ◌≡◌, refl, All, arith, map, filter, text_eq,
}
use zedspaces.Schema.{Workspace, WorkspaceState}
use zedspaces.Effects.{SandboxStatus}
use zedspaces.Effects.Table.{find_row}
use zedspaces.Steps.Commands.{orphans_of}
use zedspaces.Steps.Gc.{gc_candidates, warn_retention}
use zedspaces.Steps.Orphans.{IsNamedBy, is_over, orphans_of-unnamed, gc_candidates-warn_retention}
use zedspaces.Lifecycle.{connect_workspace, reserve_rows}
use zedspaces.Lifecycle.Occupancy.{occupancy, reserve_rows-occupancy}
use zedspaces.Examples.Demo.{demo_env, demo_workspace}

abbrev key : Text
key = 1 ∷ []

abbrev idle : Workspace
idle = record demo_workspace {
  id = key;
  state = WorkspaceState.stopped;
  workflow_run_id = none;
  retention_until = some 50;
  previous_sandbox_name = some (lit "replaced");
}

abbrev rows : List Workspace
rows = idle ∷ []

abbrev listed : List (Text × SandboxStatus)
listed =
    (lit "stray", SandboxStatus.stopped)
    ∷ (idle.sandbox_name, SandboxStatus.running)
    ∷ (lit "replaced", SandboxStatus.stopped)
    ∷ []

orphans_of-unnamed_example :
    All
      (λ name. All (λ r. ¬ IsNamedBy name r) rows)
      (orphans_of (gc_candidates 7 rows).known_sandbox_names listed)
orphans_of-unnamed_example = orphans_of-unnamed 7 rows listed

gc_candidates-warn_retention_example :
    (gc_candidates 100 (warn_retention 100 rows)).expired_workspaces
    ≡ map (λ r. r.id) (filter (is_over 100) rows)
gc_candidates-warn_retention_example = gc_candidates-warn_retention 100 rows

found : find_row key rows ≡ some idle
unfolding find_row text_eq
found = refl

abbrev after : List Workspace
after = record idle { workflow_run_id = some key; workflow_run_started_at = some 9 } ∷ []

admitted : reserve_rows demo_env key connect_workspace idle.state key 9 rows ≡ some after
unfolding reserve_rows text_eq
admitted = refl

within : occupancy rows ≤ demo_env.max_running_workspaces
within = omega arith

reserve_rows-occupancy_example : occupancy after ≤ demo_env.max_running_workspaces
reserve_rows-occupancy_example =
    reserve_rows-occupancy demo_env key connect_workspace idle key 9 rows after (tt, tt) found tt
      within admitted
