-- ===== src/Examples/Tabs.antt =====
-- A tab that reconnects after its workspace was rebuilt.
use zedspaces.Base.{◌≤◌, none, List, [], ◌∷◌, ◌≡◌, arith}
use zedspaces.Schema.{Session}
use zedspaces.Sessions.{SessionInput, insert_session, arbitrate_session}
use zedspaces.Sessions.Unique.{open_count, arbitrate_session-count}
use zedspaces.Examples.Demo.{demo_workspace}

abbrev tab : SessionInput
tab = record {
  user_id = 1 ∷ [];
  tab_id = 2 ∷ [];
  host = 3 ∷ [];
  client_build = none;
  server_build = none;
}

abbrev open_sessions : List Session
open_sessions =
    record (insert_session demo_workspace tab (4 ∷ []) 5) { sandbox_generation = 0 } ∷ []

one_open : open_count demo_workspace tab open_sessions ≤ 1
unfolding open_count
one_open = ground arith

arbitrate_session-count_example :
    open_count demo_workspace tab (arbitrate_session demo_workspace tab (6 ∷ []) 9 open_sessions).0
    ≡ 1
arbitrate_session-count_example =
    arbitrate_session-count demo_workspace tab (6 ∷ []) 9 open_sessions one_open
