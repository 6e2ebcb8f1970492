-- ===== src/Workflows/Safety.antt =====
-- A rebuild can be undone until the new generation serves: the row names the old sandbox and its
-- archive, and neither has been destroyed.
use zedspaces.Base.{ℕ, Text, Option, none, some, ◌≡◌, ◌≢◌, refl, sym, ◌∙◌, List, All}
use zedspaces.Schema.{Workspace, RestoreKind, EditorRelease}
use zedspaces.Effects.{Platform, Removal, sandbox, blob, World}
use zedspaces.Effects.Keeps.{Inv, Keeps, Keeps-bind, Keeps-then, Keeps-pure, Keeps-catch}
use zedspaces.Effects.Hoare.{Triple}
use zedspaces.Steps.Db.{with_state, with_session, marked_stopped, with_release}
use zedspaces.Steps.Supervisor.{rotated, with_command}
use zedspaces.Steps.Commands.{boot_reason}
use zedspaces.Steps.Keeps.{
  Keeps-load_then, Keeps-set_state, Keeps-set_release, Keeps-delete_sandbox,
}
use zedspaces.Workflows.Create.{create_workspace, boot_created}
use zedspaces.Workflows.Rebuild.{create_child, retry_with, prepare, stand_up}
use zedspaces.Workflows.Keeps.{IsSteady, Keeps-run_child, Keeps-boot_created, Keeps-abandon}

-- The row points to the old sandbox and its archive, and is about another sandbox.
pub record IsBackedUp (old pathname : Text) (r : Workspace) : Type 0 where
  pub previous : r.previous_sandbox_name ≡ some old
  pub kind : r.restore_kind ≡ RestoreKind.tarball
  pub archive : r.restore_blob_pathname ≡ some pathname
  pub other : r.sandbox_name ≢ old

-- A removal that destroys neither the old sandbox nor any archive.
abbrev pub IsHarmless : Text → Removal → Type 0
IsHarmless old (sandbox name) = name ≢ old
IsHarmless old (blob pathname) = ⊥

abbrev pub IsIntact : Text → List Removal → Type 0
IsIntact old l = All (IsHarmless old) l

module _ {old pathname : Text} where
  backed_up :
      {r s : Workspace}
      → r.previous_sandbox_name ≡ s.previous_sandbox_name
      → r.restore_kind ≡ s.restore_kind
      → r.restore_blob_pathname ≡ s.restore_blob_pathname
      → r.sandbox_name ≡ s.sandbox_name
      → IsBackedUp old pathname r
      → IsBackedUp old pathname s
  backed_up a b c d h = record {
    previous = sym a ∙ h.previous;
    kind = sym b ∙ h.kind;
    archive = sym c ∙ h.archive;
    other = λ e. h.other (d ∙ e);
  }

  IsBackedUp-IsSteady : IsSteady (IsBackedUp old pathname)
  unfolding with_state with_session marked_stopped rotated with_command boot_reason
  IsBackedUp-IsSteady = record {
    calm = record {
      rotate = λ hash t r h. backed_up refl refl refl refl h;
      command = λ cmd t r h. backed_up refl refl refl refl h;
    };
    free = λ reason t r h. backed_up refl refl refl refl h;
    state = λ s reason t r h. backed_up refl refl refl refl h;
    session = λ s reason hosts cmd t r h. backed_up refl refl refl refl h;
    stop = λ reason s size days t r h. backed_up refl refl refl refl h;
  }

module _ {p : Platform} (id old pathname : Text) where
  abbrev pub IsSafe : World p → Type 0
  IsSafe = Inv id (IsBackedUp old pathname) (IsIntact old)

  Keeps-create_backed :
      (fuel : ℕ) (ws : Workspace)
      → IsBackedUp old pathname ws
      → Keeps {p = p} id (IsBackedUp old pathname) (IsIntact old) (boot_created fuel ws none)
  unfolding with_session with_state
  Keeps-create_backed fuel ws loaded =
      Keeps-boot_created IsBackedUp-IsSteady fuel ws none
        (λ s reason hosts cmd t r h. backed_up refl (h.kind ∙ sym loaded.kind) refl refl h)
        (λ s reason t r h. rw loaded.previous (backed_up refl refl refl refl h))

  Keeps-create_child :
      (fuel : ℕ) → Keeps {p = p} id (IsBackedUp old pathname) (IsIntact old) (create_child fuel id)
  unfolding create_child create_workspace
  Keeps-create_child fuel = Keeps-run_child fuel _ _ (
      Keeps-catch
        (Keeps-load_then _
          (λ ws loaded same. Keeps-then (Keeps-create_backed fuel ws loaded) (Keeps-pure tt)))
        (Keeps-abandon id))

  Keeps-retry :
      (ws : Workspace) (release : EditorRelease)
      → ws.id ≡ id
      → IsBackedUp old pathname ws
      → Keeps {p = p} id
          (IsBackedUp old pathname)
          (IsIntact old)
          (retry_with ws old release RestoreKind.tarball (some pathname))
  unfolding retry_with with_state with_release
  Keeps-retry ws release same loaded =
      Keeps-then (Keeps-set_state ws.id _ _ _ (λ t r h. backed_up refl refl refl refl h)) (
        Keeps-then (Keeps-delete_sandbox ws.sandbox_name (λ l h. (loaded.other, h))) (
          Keeps-then (Keeps-set_release ws.id release (λ t r h. backed_up refl refl refl refl h))
            (Keeps-pure _)))

  Keeps-retry_as :
      (ws : Workspace) (release : EditorRelease) (kind : RestoreKind) (o : Option Text)
      → ws.id ≡ id
      → IsBackedUp old pathname ws
      → kind ≡ RestoreKind.tarball
      → o ≡ some pathname
      → Keeps {p = p} id (IsBackedUp old pathname) (IsIntact old) (retry_with ws old release kind o)
  Keeps-retry_as ws release kind o same loaded e e' =
      rw (e, e') (Keeps-retry ws release same loaded)

  Keeps-prepare :
      (fuel : ℕ) (ws : Workspace) (release : EditorRelease) (o : Option Text)
      → ws.id ≡ id
      → IsBackedUp old pathname ws
      → o ≡ some old
      → Keeps {p = p} id (IsBackedUp old pathname) (IsIntact old) (prepare fuel ws release o)
  unfolding prepare
  Keeps-prepare fuel ws release o same loaded e =
      rw e (Keeps-retry_as ws release _ _ same loaded loaded.kind loaded.archive)

  pub Keeps-create_same :
      (fuel : ℕ) (j : Text)
      → j ≡ id
      → Keeps {p = p} id (IsBackedUp old pathname) (IsIntact old) (create_child fuel j)
  Keeps-create_same fuel j same = rw same (Keeps-create_child fuel)

  Keeps-stand_up :
      (fuel : ℕ) (ws : Workspace) (release : EditorRelease)
      → ws.id ≡ id
      → IsBackedUp old pathname ws
      → Keeps {p = p} id (IsBackedUp old pathname) (IsIntact old) (stand_up fuel ws release)
  unfolding stand_up
  Keeps-stand_up fuel ws release same loaded =
      Keeps-bind
        (Keeps-prepare fuel ws release ws.previous_sandbox_name same loaded loaded.previous)
        (λ backup. Keeps-then (Keeps-create_same fuel ws.id same) (Keeps-pure backup))

  -- Retrying a rebuild whose row names the previous sandbox and its archive: up to the health of
  -- the new generation, whether the run returns or throws and whatever the platform answers, the
  -- row keeps both pointers, and neither the previous sandbox nor any archive has been destroyed.
  pub retry_rebuild-keeps_backup :
      (fuel : ℕ) (ws : Workspace) (release : EditorRelease)
      → ws.id ≡ id
      → IsBackedUp old pathname ws
      → Triple IsSafe (stand_up fuel ws release) (λ _. IsSafe) IsSafe
  retry_rebuild-keeps_backup fuel ws release same loaded =
      (Keeps-stand_up fuel ws release same loaded).triple
