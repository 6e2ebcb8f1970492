-- ===== src/Activity/Post.antt =====
-- apps/web/app/api/sandboxes/[name]/activity/route.ts: what a report writes, and `POST`.
use zedspaces.Base.{
  ℕ, ◌*◌, Bool, true, false, not, Text, text_eq, lit, ◌++◌, decimal, Option, none, some, List, [],
  ◌∷◌, filter, length, ◌==◌, max, if◌then◌else◌,
}
use zedspaces.Schema.{Workspace, KvEntry}
use zedspaces.Effects.{Platform, Db, M, ◌>>=◌, ◌>>◌, pure, now, get_db, modify_db}
use zedspaces.Effects.Table.{update_workspace}
use zedspaces.Forwards.{Ports}
use zedspaces.Forwards.Sync.{sync_listening_forwards, sort_ports}
use zedspaces.Kv.{get, set, del}
use zedspaces.Kv.Calls.{kv_get, kv_set, kv_del, kv_incr}
use zedspaces.Sweep.Decision.{number}
use zedspaces.Sweep.Running.{has_session}
use zedspaces.Activity.{
  ActivityReport, ActivityDirective, ping_ttl_ms, cpu_strike_ttl_ms, is_busy, activity_instant,
  number_text, json_ports, is_strike, new_activity, new_reason, with_activity, directive_for,
}

abbrev pub muted_ttl_ms : ℕ
muted_ttl_ms = 2592000000

-- `saveMutedPorts`
unfoldable pub save_muted : Text → List ℕ → ℕ → List KvEntry → List KvEntry
save_muted key [] t kv = del key kv
save_muted key (port ∷ ports) t kv =
    (set key (json_ports (port ∷ ports)) (some muted_ttl_ms) false t kv).0

abbrev pub muted_key : Workspace → Text
muted_key ws = lit "zs:muted-ports:" ++ ws.id

-- `parse_ports` is `JSON.parse` on the notation of an array of ports.
module _ (parse_ports : Text → List ℕ) where
  -- `mutedPorts`
  abbrev pub muted_of : Option Text → List ℕ
  muted_of none = []
  muted_of (some text) = parse_ports text

  abbrev pub ports_of : Workspace → ℕ → Db → Ports
  ports_of ws t db = record {
    rows = filter (λ f. text_eq f.workspace_id ws.id) db.forwards;
    muted = muted_of (get (muted_key ws) t db.kv);
  }

  -- The transaction of `syncListeningForwards` on the tables: the rows of other workspaces stay,
  -- and the muted ports are written if one has been dropped.
  unfoldable pub with_ports : Workspace → ℕ → Ports → Ports → Db → Db
  unfolding save_muted
  with_ports ws t old ps db = record db {
    forwards = filter (λ f. not (text_eq f.workspace_id ws.id)) db.forwards ++ ps.rows;
    kv =
        if length old.muted == length ps.muted
        then db.kv
        else save_muted (muted_key ws) ps.muted t db.kv;
  }

  module _ {p : Platform} where
    abbrev pub when_some : {A : Type 0} → Option A → (A → M p (Unit {0})) → M p (Unit {0})
    when_some none f = pure tt
    when_some (some a) f = f a

    abbrev pub write_busy : Workspace → ActivityReport → Bool → M p (Unit {0})
    write_busy ws report true = kv_set (lit "zs:busy:" ++ ws.id) report.phase (some ping_ttl_ms)
    write_busy ws report false = kv_del (lit "zs:busy:" ++ ws.id)

    abbrev pub write_cpu : Workspace → Bool → Bool → ℕ → M p (Unit {0})
    write_cpu ws attached busy cpu =
        if is_strike attached busy cpu
        then kv_incr (lit "zs:cpu:" ++ ws.id) (some cpu_strike_ttl_ms)
        else kv_del (lit "zs:cpu:" ++ ws.id)

    -- `writeActivityKeys`
    unfoldable pub write_activity_keys :
        Workspace → ActivityReport → Bool → ℕ → Option ℕ → M p (Unit {0})
    unfolding number_text is_busy
    write_activity_keys ws report attached t activity_at = do
      kv_set (lit "zs:activity:" ++ ws.id) (number_text activity_at)
          (some (max ping_ttl_ms (2 * ws.idle_minutes * 60000)))
      write_busy ws report (is_busy ws report t)
      kv_set (lit "zs:health:" ++ ws.id) (decimal t) (some ping_ttl_ms)
      when_some report.listening (λ ports.
          kv_set (lit "zs:listening:" ++ ws.id) (json_ports (sort_ports ports)) (some ping_ttl_ms))
      when_some report.cpu_busy_pct (λ cpu. write_cpu ws attached (is_busy ws report t) cpu)

    abbrev pub write_patch : Workspace → Option (Option Text) → Option ℕ → ℕ → M p (Unit {0})
    write_patch ws none none t = pure tt
    write_patch ws reason at t = update_workspace ws.id (with_activity reason at t)

    -- `syncWorkspaceRow`
    unfoldable pub sync_workspace_row : Workspace → ActivityReport → ℕ → Option ℕ → M p (Unit {0})
    unfolding with_activity
    sync_workspace_row ws report t activity_at =
        write_patch ws (new_reason ws report t) (new_activity ws t activity_at) t

    unfoldable pub sync_forwards : Workspace → Option (List ℕ) → M p (Unit {0})
    unfolding with_ports
    sync_forwards ws listening = do
      t ← now
      modify_db (λ db.
          with_ports ws t (ports_of ws t db)
            (sync_listening_forwards p.env ws listening (ports_of ws t db)) db)

    -- `POST`, for the workspace of the sandbox that has proved its identity.
    unfoldable pub post_activity : Workspace → ActivityReport → M p ActivityDirective
    unfolding activity_instant write_activity_keys sync_workspace_row sync_forwards directive_for
    post_activity ws report = do
      t ← now
      db ← get_db
      let attached = has_session ws.id db.sessions
      previous ← kv_get (lit "zs:activity:" ++ ws.id)
      let activity_at = activity_instant ws report attached t previous
      write_activity_keys ws report attached t activity_at
      sync_workspace_row ws report t activity_at
      kept ← kv_get (lit "zs:keepalive:" ++ ws.id)
      sync_forwards ws report.listening
      db2 ← get_db
      pure (
          directive_for p.env.session_cap_ms ws report t activity_at (number kept)
            (filter (λ f. text_eq f.workspace_id ws.id) db2.forwards))
