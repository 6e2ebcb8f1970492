-- ===== src/Workflows/Ending.antt =====
-- How a run ends: what the database says of the workspace's run (`workflow_run_id`) afterwards.
use zedspaces.Base.{ℕ, not, false, Text, Option, none, ◌≡◌, refl, subst}
use zedspaces.Schema.{Workspace, WorkspaceState, EditorRelease}
use zedspaces.Effects.{
  Platform, M, World, Res, ok, err, hung, Error, ◌>>=◌, ◌>>◌, throw, next, now, catch, get_db, when,
}
use zedspaces.Effects.Table.{
  RowHas, Rows-any, Rows-update, update_workspace, select_workspace, find_row,
}
use zedspaces.Effects.Hoare.{After, Triple, bind_rule, catch_rule, After-weaken}
use zedspaces.Effects.Keeps.{Inv}
use zedspaces.Steps.Db.{done, failed, finished, step_finish_run, step_load_workspace}
use zedspaces.Steps.Keeps.{load-After}
use zedspaces.Workflows.Connect.{connect_workspace, boot_resumed}
use zedspaces.Workflows.Stop.{StopReason, stop_workspace, shut_down, is_stopped}
use zedspaces.Workflows.Delete.{delete_workspace, take_down}
use zedspaces.Workflows.Rebuild.{rebuild_workspace, rebuild_unless_upgraded}
use zedspaces.Workflows.Restart.{restart_session, stop_child, connect_child}
use zedspaces.Workflows.Create.{create_workspace, boot_created, abandon}

-- No run owns the workspace.
abbrev pub IsReleased : Workspace → Type 0
IsReleased r = (r.workflow_run_id ≡ none) × (r.workflow_run_started_at ≡ none)

-- No run owns it, and the failure shows.
abbrev pub IsFailed : Workspace → Type 0
IsFailed r = IsReleased r × (r.state ≡ WorkspaceState.error)

module _ {p : Platform} where
  After-const : {A P : Type 0} (x : World p × Res A) → P → After (λ _ _. P) (λ _. Unit) x
  After-const (w, ok a) h = h
  After-const (w, err e) h = tt
  After-const (w, hung) h = tt

  -- What an update of the row with that id makes true of it.
  update_makes :
      (id : Text) (f : Workspace → Workspace) (ψ : Workspace → Type 0) (w : World p)
      → ((r : Workspace) → ψ (f r))
      → After (λ _. RowHas id ψ) (λ _. ⊥) (update_workspace id f w)
  unfolding update_workspace
  update_makes id f ψ w h =
      Rows-update id (λ _. Unit) ψ f w.db.workspaces (λ r _. h r) (Rows-any id w.db.workspaces)

  finish_releases :
      (id : Text) (w : World p)
      → After (λ _. RowHas id IsReleased) (λ _. ⊥) (step_finish_run id done w)
  unfolding step_finish_run finished now
  finish_releases id w = update_makes id (finished done _) IsReleased w (λ r. (refl, refl))

  finish_fails :
      (id text : Text) (w : World p)
      → After (λ _. RowHas id IsFailed) (λ _. ⊥) (step_finish_run id (failed text none) w)
  unfolding step_finish_run finished now
  finish_fails id text w =
      update_makes id (finished (failed text none) _) IsFailed w (λ r. ((refl, refl), refl))

  abandon_fails :
      (id : Text) (e : Error)
      → Triple {p = p}
          (λ _. Unit)
          (abandon id false e)
          (λ _. RowHas id IsReleased)
          (RowHas id IsFailed)
  unfolding abandon
  abandon_fails id e w h =
      after (step_finish_run id (failed (p.describe e) none) w) (finish_fails id (p.describe e) w)
    where
      after :
          (x : World p × Res (Unit {0}))
          → After {A = Unit {0}} (λ _. RowHas id IsFailed) (λ _. ⊥) x
          → After {A = Unit {0}}
              (λ _. RowHas id IsReleased)
              (RowHas id IsFailed)
              (next x (λ _. throw e))
      after (w, ok a) h = h
      after (w, err e) h = absurd h
      after (w, hung) h = tt

  load_has_id :
      (id : Text)
      → Triple {p = p} (λ _. Unit) (step_load_workspace id) (λ ws _. ws.id ≡ id) (λ _. Unit)
  unfolding step_load_workspace select_workspace get_db
  load_has_id id w h =
      After-weaken (λ ws w'. Inv id (λ _. Unit) (λ _. Unit) w' × Unit × (ws.id ≡ id))
        (λ ws _. ws.id ≡ id) (Inv id (λ _. Unit) (λ _. Unit)) (λ _. Unit) (step_load_workspace id w)
        (λ ws w' k. k.2) (λ w' k. tt)
        (load-After id (λ _. Unit) (λ _. Unit) w (find_row id w.db.workspaces)
          (Rows-any id w.db.workspaces, tt) refl)

  finish_if_same :
      (id j : Text)
      → j ≡ id
      → (w : World p) → After (λ _. RowHas id IsReleased) (λ _. Unit) (step_finish_run j done w)
  finish_if_same id j same w =
      After-weaken (λ _. RowHas j IsReleased) (λ _. RowHas id IsReleased) (λ _. ⊥) (λ _. Unit)
        (step_finish_run j done w) (λ _ w' h. subst (λ i. RowHas i IsReleased w') same h)
        (λ w' h. tt) (finish_releases j w)

  finishing :
      (id j : Text) (m : M p (Unit {0}))
      → Triple (λ _. j ≡ id) (m >> step_finish_run j done) (λ _. RowHas id IsReleased) (λ _. Unit)
  finishing id j m =
      bind_rule (λ _. Unit) (λ _. j ≡ id) (λ _ _. j ≡ id) (λ _. RowHas id IsReleased) m
        (λ _. step_finish_run j done) (λ w same. After-const (m w) same)
        (λ _ w same. finish_if_same id j same w)

  finishing_loaded :
      (id : Text) (f : Workspace → M p (Unit {0}))
      → Triple
          (λ _. Unit)
          (step_load_workspace id >>= λ ws. f ws >> step_finish_run ws.id done)
          (λ _. RowHas id IsReleased)
          (λ _. Unit)
  finishing_loaded id f =
      bind_rule (λ _. Unit) (λ _. Unit) (λ ws _. ws.id ≡ id) (λ _. RowHas id IsReleased)
        (step_load_workspace id) (λ ws. f ws >> step_finish_run ws.id done) (load_has_id id)
        (λ ws. finishing id ws.id (f ws))

  -- A body of that shape, which the workflows have.
  concluded :
      (id : Text) (f : Workspace → M p (Unit {0}))
      → Triple
          (λ _. Unit)
          (catch
            (step_load_workspace id >>= λ ws. f ws >> step_finish_run ws.id done)
            (abandon id false))
          (λ _. RowHas id IsReleased)
          (RowHas id IsFailed)
  concluded id f =
      catch_rule (λ _. Unit) (λ _. RowHas id IsReleased) (RowHas id IsFailed) (λ _. Unit)
        (step_load_workspace id >>= λ ws. f ws >> step_finish_run ws.id done) (abandon id false)
        (finishing_loaded id f) (abandon_fails id)

  -- A create run that is not a child leaves no run on the workspace's row when it returns, and
  -- when it throws leaves none and the state error, whatever the platform answers.
  pub create-releases_run :
      (fuel : ℕ) (id : Text) (ceiling : Option ℕ)
      → Triple {p = p}
          (λ _. Unit)
          (create_workspace fuel
            (record { workspace_id = id; child = false; ready_ceiling_ms = ceiling }))
          (λ _. RowHas id IsReleased)
          (RowHas id IsFailed)
  unfolding create_workspace
  create-releases_run fuel id ceiling = concluded id (λ ws. boot_created fuel ws ceiling)

  -- A connect run that is not a child leaves no run on the workspace's row when it returns, and
  -- when it throws leaves none and the state error, whatever the platform answers.
  pub connect-releases_run :
      (fuel : ℕ) (id : Text) (ceiling : Option ℕ)
      → Triple {p = p}
          (λ _. Unit)
          (connect_workspace fuel
            (record { workspace_id = id; child = false; ready_ceiling_ms = ceiling }))
          (λ _. RowHas id IsReleased)
          (RowHas id IsFailed)
  unfolding connect_workspace
  connect-releases_run fuel id ceiling = concluded id (λ ws. boot_resumed fuel ws ceiling)

  -- A stop run that is not a child leaves no run on the workspace's row when it returns, and when
  -- it throws leaves none and the state error, whatever the platform answers.
  pub stop-releases_run :
      (fuel : ℕ) (id : Text) (reason : StopReason)
      → Triple {p = p}
          (λ _. Unit)
          (stop_workspace fuel (record { workspace_id = id; reason = reason; child = false }))
          (λ _. RowHas id IsReleased)
          (RowHas id IsFailed)
  unfolding stop_workspace
  stop-releases_run fuel id reason =
      concluded id (λ ws. when (not (is_stopped ws.state)) (shut_down fuel ws reason))

  -- A delete run that is not a child leaves no run on the workspace's row when it returns, and
  -- when it throws leaves none and the state error, whatever the platform answers.
  pub delete-releases_run :
      (fuel : ℕ) (id : Text)
      → Triple {p = p}
          (λ _. Unit)
          (delete_workspace fuel (record { workspace_id = id; child = false }))
          (λ _. RowHas id IsReleased)
          (RowHas id IsFailed)
  unfolding delete_workspace
  delete-releases_run fuel id = concluded id (λ ws. take_down fuel ws)

  -- A rebuild run leaves no run on the workspace's row when it returns, and when it throws leaves
  -- none and the state error, whatever the platform answers.
  pub rebuild-releases_run :
      (fuel : ℕ) (id : Text) (upgrade : Option EditorRelease)
      → Triple {p = p}
          (λ _. Unit)
          (rebuild_workspace fuel (record { workspace_id = id; upgrade = upgrade }))
          (λ _. RowHas id IsReleased)
          (RowHas id IsFailed)
  unfolding rebuild_workspace
  rebuild-releases_run fuel id upgrade =
      concluded id (λ ws. rebuild_unless_upgraded fuel ws upgrade)

  -- A restart run leaves no run on the workspace's row when it returns, and when it throws leaves
  -- none and the state error, whatever the platform answers.
  pub restart-releases_run :
      (fuel : ℕ) (id : Text)
      → Triple {p = p}
          (λ _. Unit)
          (restart_session fuel id)
          (λ _. RowHas id IsReleased)
          (RowHas id IsFailed)
  unfolding restart_session
  restart-releases_run fuel id =
      catch_rule (λ _. Unit) (λ _. RowHas id IsReleased) (RowHas id IsFailed) (λ _. Unit)
        (stop_child fuel id >> (connect_child fuel id >> step_finish_run id done))
        (abandon id false)
        (bind_rule (λ _. Unit) (λ _. Unit) (λ _ _. Unit) (λ _. RowHas id IsReleased)
          (stop_child fuel id) (λ _. connect_child fuel id >> step_finish_run id done)
          (λ w h. After-const (stop_child fuel id w) tt)
          (λ _ w h. finishing id id (connect_child fuel id) w refl))
        (abandon_fails id)
