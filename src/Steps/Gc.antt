-- ===== src/Steps/Gc.antt =====
-- The collector's steps of apps/web/workflows/steps/db-steps.ts. The parameter `now` is `at`.
use zedspaces.Base.{
  ℕ, ◌+◌, ◌*◌, Bool, true, false, not, ◌&&◌, Text, text_eq, lit, Option, none, some, List, [], ◌∷◌,
  ◌++◌, filter, map, any, is_some, ltb, length, if◌then◌else◌,
}
use zedspaces.Schema.{Workspace, WorkspaceState, Session}
use zedspaces.Effects.{Platform, M, ◌>>=◌, ◌>>◌, pure, get_db, modify_db}
use zedspaces.Sessions.{is_open, end_session}
use zedspaces.Steps.Db.{day_ms}

-- `GcCandidates`
pub record GcCandidates : Type 0 where
  pub expired_workspaces : List Text
  pub known_sandbox_names : List Text

-- `lt(column, bound)`: a null is in no order.
abbrev pub is_before : Option ℕ → ℕ → Bool
is_before none bound = false
is_before (some t) bound = ltb t bound

abbrev pub is_stopped_state : WorkspaceState → Bool
is_stopped_state WorkspaceState.stopped = true
is_stopped_state _ = false

unfoldable pub is_expired : ℕ → Workspace → Bool
is_expired at r =
    is_stopped_state r.state
    && not (is_some r.deleted_at)
    && is_before r.retention_until at
    && is_some r.retention_warned_at

-- `row.previous ? [row.name, row.previous] : [row.name]`
abbrev pub names_of : Text → Option Text → List Text
names_of name none = name ∷ []
names_of name (some []) = name ∷ []
names_of name (some (c ∷ s)) = name ∷ (c ∷ s) ∷ []

unfoldable pub known_names : List Workspace → List Text
known_names [] = []
known_names (r ∷ rs) =
    let rest = known_names rs in
    if is_some r.deleted_at then rest else names_of r.sandbox_name r.previous_sandbox_name ++ rest

unfoldable pub gc_candidates : ℕ → List Workspace → GcCandidates
unfolding is_expired known_names
gc_candidates at rows = record {
  expired_workspaces = map (λ r. r.id) (filter (is_expired at) rows);
  known_sandbox_names = known_names rows;
}

-- A week before the end of the retention.
unfoldable pub is_due : ℕ → Workspace → Bool
is_due at r =
    not (is_some r.deleted_at)
    && not (is_some r.retention_warned_at)
    && is_before r.retention_until (at + 7 * day_ms)

unfoldable pub warn_row : ℕ → Workspace → Workspace
unfolding is_due
warn_row at r = if is_due at r then record r { retention_warned_at = some at } else r

unfoldable pub warn_retention : ℕ → List Workspace → List Workspace
unfolding warn_row
warn_retention at rows = map (warn_row at) rows

-- The join: a row of the session's workspace whose state is not `running`.
unfoldable pub is_stale : ℕ → List Workspace → Session → Bool
unfolding is_open
is_stale at rows s =
    is_open s
    && ltb (s.started_at + 25 * 3600000) at
    && any (λ r. text_eq r.id s.workspace_id && not (is_up r.state)) rows
  where
    is_up : WorkspaceState → Bool
    is_up WorkspaceState.running = true
    is_up _ = false

unfoldable pub close_stale : ℕ → List Workspace → List Session → List Session
unfolding is_stale end_session
close_stale at rows = map (λ s. if is_stale at rows s then end_session at (lit "stale") s else s)

module _ {p : Platform} where
  unfoldable pub step_gc_candidates : ℕ → M p GcCandidates
  step_gc_candidates at = do db ← get_db; pure (gc_candidates at db.workspaces)

  unfoldable pub step_warn_retention : ℕ → M p ℕ
  step_warn_retention at = do
    db ← get_db
    modify_db (λ d. record d { workspaces = warn_retention at d.workspaces })
    pure (length (filter (is_due at) db.workspaces))

  unfoldable pub step_close_stale_sessions : ℕ → M p ℕ
  step_close_stale_sessions at = do
    db ← get_db
    modify_db (λ d. record d { sessions = close_stale at d.workspaces d.sessions })
    pure (length (filter (is_stale at db.workspaces) db.sessions))
