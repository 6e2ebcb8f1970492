-- ===== src/Workflows/Rebuilding.antt =====
-- The first attempt of a rebuild: until the new generation serves, either the row is still about
-- the old sandbox or it names it and its archive, and the old sandbox has not been destroyed.
use zedspaces.Base.{
  ℕ, suc, zero, ◌+◌, Text, Option, none, some, ◌≡◌, ◌≢◌, refl, sym, ◌∙◌, ap, List, inl, inr, ◌⊎◌,
  decimal-injective, append-cancel_left, arith,
}
use zedspaces.Schema.{Workspace, EditorRelease, Env, new_sandbox_name}
use zedspaces.Effects.{Platform, Removal, M, World, ◌>>=◌, ◌>>◌, pure, now, modify_db, get_db}
use zedspaces.Effects.Table.{
  find_row, select_workspace, update_workspace, Rows-find_row, Rows-update, Rows-weaken,
}
use zedspaces.Effects.Hoare.{After, After-weaken, Triple, bind_rule}
use zedspaces.Effects.Keeps.{
  Inv, Keeps, Keeps-bind, Keeps-then, Keeps-pure, Keeps-when, Keeps-now, Keeps-some_or, Keeps-hang,
  Keeps-if, Keeps-throw, Keeps-pause,
}
use zedspaces.Steps.Db.{
  with_state, with_session, marked_stopped, bumped, step_bump_generation, bump_row, bump_found,
}
use zedspaces.Steps.Supervisor.{rotated, with_command}
use zedspaces.Steps.Commands.{boot_reason}
use zedspaces.Steps.Keeps.{
  Keeps-set_state, Keeps-resume_quiet, Keeps-stop_discard, Keeps-session_end, Keeps-start_archive,
  Keeps-finish_archive, Keeps-wait,
}
use zedspaces.Workflows.Rebuild.{
  Backup, archive_exit, wait_archive, archive_generation, secure_current, archive_current, prepare,
  stand_up, create_child,
}
use zedspaces.Workflows.Keeps.{IsSteady, Keeps-run_child, Keeps-stop_workspace}
use zedspaces.Workflows.Safety.{IsBackedUp, IsIntact, Keeps-create_same}

-- The row is about the sandbox `old`, named after its generation, and no rebuild is pending.
pub record IsCurrent (e : Env) (old : Text) (r : Workspace) : Type 0 where
  pub named : r.sandbox_name ≡ new_sandbox_name e r.id r.sandbox_generation
  pub current : r.sandbox_name ≡ old
  pub settled : r.previous_sandbox_name ≡ none

-- The old sandbox can be found again through the row.
abbrev pub IsRecoverable : Env → Text → Workspace → Type 0
IsRecoverable e old r = IsCurrent e old r ⊎ ((pathname : Text) × IsBackedUp old pathname r)

next_name_differs :
    (e : Env) (id : Text) (n : ℕ) → new_sandbox_name e id (n + 1) ≢ new_sandbox_name e id n
unfolding new_sandbox_name
next_name_differs e id n same = clash (decimal-injective (n + 1) n (append-cancel_left _ _ _ same))
  where
    clash : n + 1 ≡ n → ⊥
    clash q = omega arith

module _ {e : Env} {old : Text} where
  IsCurrent-IsSteady : IsSteady (IsCurrent e old)
  unfolding with_state with_session marked_stopped rotated with_command boot_reason
  IsCurrent-IsSteady = record {
    calm = record {
      rotate = λ hash t r h. record { named = h.named; current = h.current; settled = h.settled };
      command = λ cmd t r h. record { named = h.named; current = h.current; settled = h.settled };
    };
    free = λ reason t r h. record { named = h.named; current = h.current; settled = h.settled };
    state = λ s reason t r h. record { named = h.named; current = h.current; settled = h.settled };
    session = λ s reason hosts cmd t r h. record {
      named = h.named;
      current = h.current;
      settled = h.settled;
    };
    stop = λ reason s size days t r h. record {
      named = h.named;
      current = h.current;
      settled = h.settled;
    };
  }

module _ {p : Platform} {id : Text} {φ : Workspace → Type 0} {ρ : List Removal → Type 0} where
  Keeps-archive_exit :
      (deadline : ℕ) (again : M p (Unit {0})) (exit : Option ℕ)
      → Keeps id φ ρ again
      → Keeps id φ ρ (archive_exit deadline again exit)
  unfolding archive_exit
  Keeps-archive_exit deadline again (some code) h = Keeps-if _ (Keeps-pure tt) (Keeps-throw _)
  Keeps-archive_exit deadline again none h =
      Keeps-bind Keeps-now λ t. Keeps-if _ (Keeps-throw _) (Keeps-then (Keeps-pause 5000) h)

  Keeps-wait_archive :
      (fuel : ℕ) (name cmd : Text) (deadline : ℕ)
      → Keeps id φ ρ (wait_archive {p = p} fuel name cmd deadline)
  unfolding wait_archive
  Keeps-wait_archive zero name cmd deadline = Keeps-hang
  Keeps-wait_archive (suc fuel) name cmd deadline =
      Keeps-bind (Keeps-wait name cmd 30000)
        (λ exit. Keeps-archive_exit deadline _ exit (Keeps-wait_archive fuel name cmd deadline))

  Keeps-archive : (fuel : ℕ) (name j : Text) → Keeps id φ ρ (archive_generation {p = p} fuel name j)
  unfolding archive_generation
  Keeps-archive fuel name j = Keeps-bind (Keeps-start_archive name) λ cmd.
      Keeps-bind Keeps-now
        λ t. Keeps-then (Keeps-wait_archive fuel name cmd _) (Keeps-finish_archive name j)

  Keeps-secure :
      (steady : IsSteady φ) (fuel : ℕ) (ws : Workspace)
      → Keeps id φ ρ (secure_current {p = p} fuel ws)
  unfolding secure_current
  Keeps-secure steady fuel ws =
      Keeps-then
        (Keeps-when _ (Keeps-run_child fuel _ _ (Keeps-stop_workspace steady fuel ws.id _)))
        (Keeps-then (Keeps-set_state ws.id _ _ _ (steady.state _ _)) (
          Keeps-bind (Keeps-resume_quiet ws.sandbox_name) λ found.
            Keeps-bind (Keeps-some_or found _) λ resumed.
              Keeps-bind (Keeps-archive fuel ws.sandbox_name ws.id) λ pathname.
                Keeps-bind (Keeps-stop_discard ws.sandbox_name)
                  λ usage. Keeps-then (Keeps-session_end ws.id _) (Keeps-pure pathname)))

module _ (e : Env) (old : Text) where
  bumped-IsBackedUp :
      (ws : Workspace) (pathname : Text) (release : EditorRelease) (t : ℕ) (r : Workspace)
      → IsCurrent e old ws
      → IsBackedUp old pathname
          (bumped ws (new_sandbox_name e ws.id (ws.sandbox_generation + 1)) pathname release t r)
  unfolding bumped
  bumped-IsBackedUp ws pathname release t r h = record {
    previous = ap some h.current;
    kind = refl;
    archive = refl;
    other =
        λ same. next_name_differs e ws.id ws.sandbox_generation (same ∙ sym h.current ∙ h.named);
  }

module _ {p : Platform} (id old : Text) where
  abbrev Current : World p → Type 0
  Current = Inv id (IsCurrent p.env old) (IsIntact old)

  abbrev pub Recoverable : World p → Type 0
  Recoverable = Inv id (IsRecoverable p.env old) (IsIntact old)

  abbrev pub BackedUp : Text → World p → Type 0
  BackedUp pathname = Inv id (IsBackedUp old pathname) (IsIntact old)

  bump-After :
      (pathname : Text) (release : EditorRelease) (ws : Workspace) (o : Option Text) (w : World p)
      → IsCurrent p.env old ws
      → o ≡ none
      → Current w
      → After
          (λ bump w'. BackedUp pathname w' × (bump.old_sandbox_name ≡ old))
          Current
          (bump_row id pathname release ws o w)
  unfolding bump_row now update_workspace modify_db
  bump-After pathname release ws (some name) w cur none_pending h = h
  bump-After pathname release ws none w cur none_pending h = (
    (
      Rows-update id (IsCurrent p.env old) (IsBackedUp old pathname) _ w.db.workspaces
          (λ r _. bumped-IsBackedUp p.env old ws pathname release _ r cur) h.0,
      h.1,
    ),
    cur.current,
  )

  bump_of_row :
      (pathname : Text) (release : EditorRelease) (o : Option Workspace) (w : World p)
      → find_row id w.db.workspaces ≡ o
      → Current w
      → After
          (λ bump w'. BackedUp pathname w' × (bump.old_sandbox_name ≡ old))
          Current
          (bump_found id pathname release o w)
  unfolding bump_found
  bump_of_row pathname release none w e h = h
  bump_of_row pathname release (some ws) w e h =
      bump-After pathname release ws ws.previous_sandbox_name w cur cur.settled h
    where
      cur : IsCurrent p.env old ws
      cur = (Rows-find_row id (IsCurrent p.env old) w.db.workspaces h.0 e).0

  bump_keeps_backup :
      (pathname : Text) (release : EditorRelease)
      → Triple Current
          (step_bump_generation id pathname release)
          (λ bump w'. BackedUp pathname w' × (bump.old_sandbox_name ≡ old))
          Current
  unfolding step_bump_generation select_workspace get_db
  bump_keeps_backup pathname release w h = bump_of_row pathname release _ w refl h

  Current-Recoverable : (w : World p) → Current w → Recoverable w
  Current-Recoverable w h =
      (Rows-weaken id (IsCurrent p.env old) (IsRecoverable p.env old) _ (λ r k. inl k) h.0, h.1)

  BackedUp-Recoverable : (pathname : Text) (w : World p) → BackedUp pathname w → Recoverable w
  BackedUp-Recoverable pathname w h = (
    Rows-weaken id (IsBackedUp old pathname) (IsRecoverable p.env old) _ (λ r k. inr (pathname, k))
        h.0,
    h.1,
  )

  -- The backup that a step of the rebuild hands on is the one the row names.
  abbrev pub Named : Backup → World p → Type 0
  Named backup w = BackedUp backup.blob_pathname w × (backup.sandbox_name ≡ old)

  bump_names :
      (pathname : Text) (release : EditorRelease)
      → Triple Current
          (step_bump_generation id pathname release >>= λ bump.
            pure (record { sandbox_name = bump.old_sandbox_name; blob_pathname = pathname }))
          Named
          Current
  bump_names pathname release =
      bind_rule Current Current (λ bump w'. BackedUp pathname w' × (bump.old_sandbox_name ≡ old))
        Named (step_bump_generation id pathname release)
        (λ bump. pure (record { sandbox_name = bump.old_sandbox_name; blob_pathname = pathname }))
        (bump_keeps_backup pathname release) (λ bump w h. h)

  archive_names :
      (fuel : ℕ) (ws : Workspace) (release : EditorRelease)
      → ws.id ≡ id
      → Triple Current (archive_current fuel ws release) Named Current
  unfolding archive_current
  archive_names fuel ws release same =
      bind_rule Current Current (λ _. Current) Named (secure_current fuel ws)
        (λ pathname. step_bump_generation ws.id pathname release >>= λ bump.
          pure (record { sandbox_name = bump.old_sandbox_name; blob_pathname = pathname }))
        (Keeps-secure IsCurrent-IsSteady fuel ws).triple
        (λ pathname. rw same (bump_names pathname release))

  create_names :
      (fuel : ℕ) (ws : Workspace) (backup : Backup)
      → ws.id ≡ id
      → Triple (Named backup) (create_child fuel ws.id >> pure backup) Named Recoverable
  create_names fuel ws backup same =
      bind_rule Recoverable (Named backup) (λ _. Named backup) Named (create_child fuel ws.id)
        (λ _. pure backup)
        (λ w h.
          After-weaken (λ _. BackedUp backup.blob_pathname) (λ _. Named backup)
            (BackedUp backup.blob_pathname) Recoverable (create_child fuel ws.id w)
            (λ _ w' k. (k, h.1)) (BackedUp-Recoverable backup.blob_pathname)
            ((Keeps-create_same id old backup.blob_pathname fuel ws.id same).triple w h.0))
        (λ _ w h. h)

  -- Rebuilding a workspace whose row is about its current sandbox, with no rebuild pending: up to
  -- the health of the new generation, whatever the platform answers, a run that throws leaves the
  -- row still about that sandbox or naming it and its archive, with neither the sandbox nor any
  -- archive destroyed; a run that returns leaves the row naming both, and hands on exactly that
  -- backup.
  pub first_rebuild-Recoverable :
      (fuel : ℕ) (ws : Workspace) (release : EditorRelease)
      → ws.id ≡ id
      → ws.previous_sandbox_name ≡ none
      → Triple Current (stand_up fuel ws release) Named Recoverable
  unfolding stand_up prepare
  first_rebuild-Recoverable fuel ws release same first =
      bind_rule Recoverable Current Named Named (prepare fuel ws release ws.previous_sandbox_name)
        (λ backup. create_child fuel ws.id >> pure backup) (prepared ws.previous_sandbox_name first)
        (λ backup. create_names fuel ws backup same)
    where
      prepared :
          (o : Option Text)
          → o ≡ none
          → Triple Current (prepare fuel ws release o) Named Recoverable
      prepared (some previous) e = cc
      prepared none e = λ w h.
          After-weaken Named Named Current Recoverable (archive_current fuel ws release w)
            (λ b w' k. k) Current-Recoverable (archive_names fuel ws release same w h)
