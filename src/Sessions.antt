-- ===== src/Sessions.antt =====
-- The editor sessions of apps/web/lib/connect.ts: one open row for each tab of a workspace.
-- `SessionInput` is `OpenSessionInput`; a new row's id is random (`newId("ses")`), and is passed in.
pub mod Unique
use zedspaces.Base.{
  ℕ, Bool, ◌&&◌, Text, text_eq, Option, none, some, List, [], ◌∷◌, map, is_some, not, lit,
  if◌then◌else◌, ◌==◌,
}
use zedspaces.Schema.{Workspace, Session}
use zedspaces.Effects.{Platform, M, ◌>>=◌, now, modify_db}

pub record SessionInput : Type 0 where
  pub user_id : Text
  pub tab_id : Text
  pub host : Text
  pub client_build : Option Text
  pub server_build : Option Text

-- `isNull(sessions.endedAt)`
unfoldable pub is_open : Session → Bool
is_open s = not (is_some s.ended_at)

unfoldable pub end_session : ℕ → Text → Session → Session
end_session t reason s = record s { ended_at = some t; end_reason = some reason }

-- `closeOpenSession`
unfoldable pub close_open : Text → ℕ → Text → List Session → List Session
unfolding is_open end_session
close_open ws t reason =
    map λ s. if text_eq s.workspace_id ws && is_open s then end_session t reason s else s

-- The `where` clause of `arbitrateSession`.
unfoldable pub holds : Workspace → SessionInput → Session → Bool
unfolding is_open
holds ws input s = text_eq s.workspace_id ws.id && text_eq s.holder_tab_id input.tab_id && is_open s

unfoldable pub find_open : Workspace → SessionInput → List Session → Option Session
unfolding holds
find_open ws input [] = none
find_open ws input (s ∷ ss) = if holds ws input s then some s else find_open ws input ss

unfoldable pub refresh : Workspace → SessionInput → Session → Session
refresh ws input s = record s {
  ws_host = input.host;
  client_build = input.client_build;
  server_build = input.server_build;
  sandbox_session_id = ws.current_sandbox_session_id;
}

-- `update(sessions).set(f).where(id = …)`
unfoldable pub update_session : Text → (Session → Session) → List Session → List Session
update_session id f [] = []
update_session id f (s ∷ ss) = (if text_eq s.id id then f s else s) ∷ update_session id f ss

-- `insertSession`
unfoldable pub insert_session : Workspace → SessionInput → Text → ℕ → Session
insert_session ws input id t = record {
  id = id;
  workspace_id = ws.id;
  user_id = input.user_id;
  sandbox_generation = ws.sandbox_generation;
  sandbox_session_id = ws.current_sandbox_session_id;
  holder_tab_id = input.tab_id;
  ws_host = input.host;
  client_build = input.client_build;
  server_build = input.server_build;
  started_at = t;
  ended_at = none;
  end_reason = none;
  tokens_minted = 0;
  last_connect_id = none;
}

unfoldable pub open_arbitrated :
    Workspace → SessionInput → Text → ℕ → List Session → Option Session → List Session × Session
unfolding refresh update_session insert_session end_session
open_arbitrated ws input id t ss none =
    let fresh = insert_session ws input id t in (fresh ∷ ss, fresh)
open_arbitrated ws input id t ss (some s) =
    let fresh = insert_session ws input id t in
    if s.sandbox_generation == ws.sandbox_generation
    then (update_session s.id (refresh ws input) ss, refresh ws input s)
    else (fresh ∷ update_session s.id (end_session t (lit "generation_changed")) ss, fresh)

-- `arbitrateSession`, one transaction.
unfoldable pub arbitrate_session :
    Workspace → SessionInput → Text → ℕ → List Session → List Session × Session
unfolding open_arbitrated find_open
arbitrate_session ws input id t ss = open_arbitrated ws input id t ss (find_open ws input ss)

unfoldable pub close_open_session : {p : Platform} → Text → Text → M p (Unit {0})
unfolding now modify_db close_open
close_open_session ws reason = do
  t ← now
  modify_db (λ db. record db { sessions = close_open ws t reason db.sessions })
