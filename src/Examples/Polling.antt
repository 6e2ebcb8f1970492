-- ===== src/Examples/Polling.antt =====
-- Runs and polling loops on the demonstration platform.
use zedspaces.Base.{◌+◌, ◌*◌, ◌<◌, lit, arith, false, some, refl}
use zedspaces.Effects.Ends.{IsTimely, IsPrompt, Ends}
use zedspaces.Workflows.Create.{CreateWorkspaceRun, create_workspace}
use zedspaces.Workflows.Restart.{restart_session}
use zedspaces.Workflows.Ended.{create_workspace-Ends}
use zedspaces.Workflows.Restarted.{IsSettling, restart_session-Ends}
use zedspaces.Workflows.Rebuild.{wait_archive}
use zedspaces.Workflows.Loops.{wait_archive-Ends}
use zedspaces.Examples.Demo.{demo, demo_id}

demo-IsTimely : IsTimely demo
demo-IsTimely = record {
  sleeps = λ ms s. omega arith;
  gets = λ name resume s. omega arith;
  waits = λ h cmd ms s. omega arith;
  fetches = λ host s. omega arith;
}

demo-IsPrompt : IsPrompt demo
demo-IsPrompt = record {
  timely = demo-IsTimely;
  randoms = λ s. omega arith;
  creates = λ input s. omega arith;
  commands = λ h input s. omega arith;
  kills = λ h cmd s. omega arith;
  stops = λ h s. omega arith;
}

demo-IsSettling : IsSettling demo
demo-IsSettling = record {
  prompt = demo-IsPrompt;
  starts = λ name s. omega arith;
  asks = λ run s. omega arith;
  settles = λ run s. refl;
}

abbrev creation : CreateWorkspaceRun
creation = record { workspace_id = demo_id; child = false; ready_ceiling_ms = some 9000 }

soon : 9000 < 1000 + 2 * 5000
soon = omega arith

in_time : 9000 < 2 * 5000
in_time = omega arith

in_an_hour : 2700000 < 541 * 5000
in_an_hour = omega arith

create_workspace-Ends_example : Ends {p = demo} 1000 (create_workspace 3 creation)
create_workspace-Ends_example = create_workspace-Ends demo-IsPrompt 2 creation in_time

restart_session-Ends_example : Ends {p = demo} 1000 (restart_session 542 demo_id)
restart_session-Ends_example = restart_session-Ends demo-IsSettling 541 demo_id in_an_hour

wait_archive-Ends_example : Ends {p = demo} 1000 (wait_archive 3 (lit "sb") (lit "cmd") 9000)
wait_archive-Ends_example = wait_archive-Ends demo-IsTimely 2 1000 (lit "sb") (lit "cmd") 9000 soon
