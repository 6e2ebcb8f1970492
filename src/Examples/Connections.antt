-- ===== src/Examples/Connections.antt =====
-- Tabs that connect to the demo workspace.
use zedspaces.Base.{refl, Text, lit, none}
use zedspaces.Schema.{Workspace, Session, WorkspaceState}
use zedspaces.Effects.{Op, ok}
use zedspaces.Effects.Keeps.{Keeps}
use zedspaces.Connect.{post_connect}
use zedspaces.Connect.Request.{ConnectInput, reconnect}
use zedspaces.Connect.Reconnect.{Unstarted, post_connect-Unstarted}
use zedspaces.Examples.Demo.{demo, demo_id, demo_workspace}

abbrev demo_sign : Workspace → Session → Text → Op demo.State Text
demo_sign ws session id t = (t, ok (lit "token"))

abbrev redial : ConnectInput
redial = record { client_build = none; reason = reconnect; tab_id = lit "tab" }

-- The row says `running` and has no hosts.
abbrev lost_workspace : Workspace
lost_workspace = record demo_workspace { workflow_run_id = none; workflow_run_started_at = none }

post_connect-Unstarted_example :
    Keeps demo_id
      (Unstarted none WorkspaceState.running)
      (λ l. Unit)
      (post_connect {p = demo} demo_sign (lit "u") redial lost_workspace)
post_connect-Unstarted_example =
    post_connect-Unstarted demo demo_sign demo_id none WorkspaceState.running (λ l. Unit) (lit "u")
      redial refl lost_workspace
