-- ===== src/Examples/Ports.antt =====
-- The preview ports of a workspace with one forwarded port.
use zedspaces.Base.{lit, none, some, [], ◌∷◌, refl}
use zedspaces.Schema.{Forward, public}
use zedspaces.Forwards.{Ports, ForwardRequest, allocate_slot, create_forward}
use zedspaces.Forwards.Sync.{sync_listening_forwards}
use zedspaces.Forwards.Slots.{Reserved, Unique}
use zedspaces.Forwards.Allocation.{Granted, allocate_slot-Reserved, create_forward-Unique}
use zedspaces.Forwards.Reconciled.{sync_listening_forwards-Unique}
use zedspaces.Examples.Demo.{demo_env, demo_workspace}

abbrev forward_3000 : Forward
forward_3000 = record {
  workspace_id = lit "w";
  port = 3000;
  visibility = public;
  label = none;
  url = none;
  slot = some 8444;
}

abbrev ports : Ports
ports = record { rows = forward_3000 ∷ []; muted = [] }

abbrev request : ForwardRequest
request = record { port = 5173; visibility = public; label = none }

ports-Unique : Unique ports.rows ports.rows
ports-Unique = ((λ slot e. ((λ e'. refl), tt)), tt)

allocate_slot-Reserved_example :
    Granted (λ slot. Reserved slot 5173 ports.rows) (allocate_slot 5173 ports.rows)
allocate_slot-Reserved_example = allocate_slot-Reserved 5173 ports.rows ports-Unique

create_forward-Unique_example :
    Granted (λ ps. Unique ps.rows ps.rows) (create_forward demo_env demo_workspace request ports)
create_forward-Unique_example =
    create_forward-Unique demo_env demo_workspace request ports ports-Unique

sync_listening_forwards-Unique_example :
    Unique
      (sync_listening_forwards demo_env demo_workspace (some (5173 ∷ 3000 ∷ [])) ports).rows
      (sync_listening_forwards demo_env demo_workspace (some (5173 ∷ 3000 ∷ [])) ports).rows
sync_listening_forwards-Unique_example =
    sync_listening_forwards-Unique demo_env demo_workspace (some (5173 ∷ 3000 ∷ [])) ports
      ports-Unique
