-- ===== src/Steps/Keeps/Rows.antt =====
-- The steps of Steps/Db. Each lemma asks that the step's own update keeps the row's property.
use zedspaces.Base.{ℕ, Text, Option, none, some, ◌≡◌, refl, List, filter, not, text_eq}
use zedspaces.Schema.{Workspace, WorkspaceState, RestoreKind, EditorRelease}
use zedspaces.Effects.{Platform, Removal, World, M, ◌>>=◌, get_db}
use zedspaces.Effects.Table.{find_row, Rows-find_row, select_workspace}
use zedspaces.Effects.Hoare.{After, bind_rule}
use zedspaces.Effects.Keeps.{
  Keeps, Keeps-bind, Keeps-then, Keeps-pure, Keeps-throw, Keeps-some_or, Keeps-now, Keeps-select,
  Keeps-modify, Keeps-update, Inv,
}
use zedspaces.Sessions.{close_open_session, close_open}
use zedspaces.Steps.Db.{
  WorkspacePatch, RunOutcome, done, failed, SessionHosts, with_state, finished, with_session,
  marked_stopped, with_release, purged, present, step_load_workspace, step_set_state,
  step_finish_run, step_pick_image, step_build_create_input, step_record_sandbox_session,
  step_mark_stopped, step_record_session_end, step_current_release, step_set_release,
  step_purge_workspace_rows, unless_deleted,
}

module _ {p : Platform} {id : Text} {φ : Workspace → Type 0} {ρ : List Removal → Type 0} where
  pub Keeps-present : (j : Text) (o : Option Workspace) → Keeps id φ ρ (present {p = p} j o)
  Keeps-present j none = Keeps-throw _
  Keeps-present j (some ws) = live ws.deleted_at
    where
      live : (o : Option ℕ) → Keeps id φ ρ (unless_deleted {p = p} j o ws)
      live none = Keeps-pure ws
      live (some t) = Keeps-throw _

  pub Keeps-load : (j : Text) → Keeps id φ ρ (step_load_workspace {p = p} j)
  unfolding step_load_workspace
  Keeps-load j = Keeps-bind (Keeps-select j) (Keeps-present j)

  pub Keeps-set_state :
      (j : Text) (s : WorkspaceState) (reason : Option (Option Text)) (patch : WorkspacePatch)
      → ((t : ℕ) (r : Workspace) → φ r → φ (with_state s reason patch t r))
      → Keeps id φ ρ (step_set_state {p = p} j s reason patch)
  unfolding step_set_state with_state
  Keeps-set_state j s reason patch k =
      Keeps-bind Keeps-now (λ t. Keeps-update j (with_state s reason patch t) (λ r. refl) (k t))

  pub Keeps-finish_run :
      (j : Text) (o : RunOutcome)
      → ((t : ℕ) (r : Workspace) → φ r → φ (finished o t r))
      → Keeps id φ ρ (step_finish_run {p = p} j o)
  unfolding step_finish_run finished
  Keeps-finish_run j done k =
      Keeps-bind Keeps-now (λ t. Keeps-update j (finished done t) (λ r. refl) (k t))
  Keeps-finish_run j (failed e s) k =
      Keeps-bind Keeps-now (λ t. Keeps-update j (finished (failed e s) t) (λ r. refl) (k t))

  pub Keeps-pick_image : (j : Text) → Keeps id φ ρ (step_pick_image {p = p} j)
  unfolding step_pick_image
  Keeps-pick_image j =
      Keeps-bind (Keeps-select j)
        (λ row. Keeps-bind (Keeps-some_or row _) (λ ws. Keeps-pure ws.image_ref))

  pub Keeps-build_create_input :
      (j image : Text) → Keeps id φ ρ (step_build_create_input {p = p} j image)
  unfolding step_build_create_input
  Keeps-build_create_input j image =
      Keeps-bind (Keeps-select j) (λ row. Keeps-bind (Keeps-some_or row _) (λ ws. Keeps-pure _))

  pub Keeps-record_session :
      (j : Text) (s : WorkspaceState) (reason : Option Text) (hosts : SessionHosts)
      (kind : Option RestoreKind) (cmd : Option (Option Text))
      → ((t : ℕ) (r : Workspace) → φ r → φ (with_session s reason hosts kind cmd t r))
      → Keeps id φ ρ (step_record_sandbox_session {p = p} j s reason hosts kind cmd)
  unfolding step_record_sandbox_session with_session
  Keeps-record_session j s reason hosts kind cmd k =
      Keeps-bind Keeps-now
        (λ t. Keeps-update j (with_session s reason hosts kind cmd t) (λ r. refl) (k t))

  pub Keeps-mark_stopped :
      (j reason : Text) (s : WorkspaceState) (size : Option (Option ℕ))
      → ((days t : ℕ) (r : Workspace) → φ r → φ (marked_stopped reason s size days t r))
      → Keeps id φ ρ (step_mark_stopped {p = p} j reason s size)
  unfolding step_mark_stopped marked_stopped
  Keeps-mark_stopped j reason s size k = Keeps-bind Keeps-now (λ t.
      Keeps-update j (marked_stopped reason s size p.env.retention_days t) (λ r. refl) (k _ t))

  pub Keeps-close_sessions : (j reason : Text) → Keeps id φ ρ (close_open_session {p = p} j reason)
  unfolding close_open_session
  Keeps-close_sessions j reason = Keeps-bind Keeps-now (λ t.
      Keeps-modify (λ db. record db { sessions = close_open j t reason db.sessions }) (λ db. refl))

  pub Keeps-session_end :
      (j reason : Text) → Keeps id φ ρ (step_record_session_end {p = p} j reason)
  unfolding step_record_session_end
  Keeps-session_end j reason = Keeps-close_sessions j reason

  pub Keeps-current_release : Keeps id φ ρ (step_current_release {p = p})
  unfolding step_current_release
  Keeps-current_release = Keeps-some_or _ _

  pub Keeps-set_release :
      (j : Text) (release : EditorRelease)
      → ((t : ℕ) (r : Workspace) → φ r → φ (with_release release t r))
      → Keeps id φ ρ (step_set_release {p = p} j release)
  unfolding step_set_release with_release
  Keeps-set_release j release k =
      Keeps-bind Keeps-now (λ t. Keeps-update j (with_release release t) (λ r. refl) (k t))

  pub Keeps-purge :
      (j : Text)
      → ((t : ℕ) (r : Workspace) → φ r → φ (purged t r))
      → Keeps id φ ρ (step_purge_workspace_rows {p = p} j)
  unfolding step_purge_workspace_rows purged
  Keeps-purge j k =
      Keeps-then
        (Keeps-modify
          (λ db. record db { forwards = filter (λ f. not (text_eq f.workspace_id j)) db.forwards })
          (λ db. refl))
        (Keeps-then (Keeps-close_sessions j _)
          (Keeps-bind Keeps-now (λ t. Keeps-update j (purged t) (λ r. refl) (k t))))

module _ {p : Platform} (id : Text) (φ : Workspace → Type 0) (ρ : List Removal → Type 0) where
  pub load-After :
      (w : World p) (o : Option Workspace)
      → Inv id φ ρ w
      → find_row id w.db.workspaces ≡ o
      → After (λ ws w'. Inv id φ ρ w' × φ ws × (ws.id ≡ id)) (Inv id φ ρ) (present id o w)
  load-After w none h e = h
  load-After w (some ws) h e = live ws.deleted_at (Rows-find_row id φ w.db.workspaces h.0 e)
    where
      live :
          (t : Option ℕ)
          → φ ws × (ws.id ≡ id)
          → After
              (λ ws w'. Inv id φ ρ w' × φ ws × (ws.id ≡ id))
              (Inv id φ ρ)
              (unless_deleted id t ws w)
      live none (a, b) = (h, a, b)
      live (some t) _ = h

module _ {p : Platform} {id : Text} {φ : Workspace → Type 0} {ρ : List Removal → Type 0} where
  -- What follows a load may use that the loaded row has `φ`.
  pub Keeps-load_then :
      {A : Type 0} (f : Workspace → M p A)
      → ((ws : Workspace) → φ ws → ws.id ≡ id → Keeps id φ ρ (f ws))
      → Keeps id φ ρ (step_load_workspace id >>= f)
  unfolding step_load_workspace select_workspace get_db
  Keeps-load_then {A} f k = record {
    triple =
        bind_rule (Inv id φ ρ) (Inv id φ ρ) (λ ws w. Inv id φ ρ w × φ ws × (ws.id ≡ id))
          (λ _. Inv id φ ρ) (step_load_workspace id) f (λ w h. load-After id φ ρ w _ h refl)
          (λ ws w h. (k ws h.1 h.2).triple w h.0);
  }
