-- ===== src/Updater.antt =====
-- apps/web/app/(editor)/w/[id]/editor-updater.ts: the updater of a tab, as steps between the awaits
-- of its checks and its installation.
pub mod Staged
pub mod Disposed
use zedspaces.Base.{
  ℕ, suc, ◌≡◌, ◌≢◌, Bool, true, false, Option, none, some, List, [], ◌∷◌, if◌then◌else◌,
}
use zedspaces.Schema.{EditorRelease, same_release}

-- What the editor shows of an update (`setUpdateStatus`), less the share that has been downloaded.
pub data UpdateStatus : Type 0 where
  idle checking error : UpdateStatus
  downloading ready installing : EditorRelease → UpdateStatus

-- Where the check stands. `pending` is set while it is not `no_check`.
pub data Check : Type 0 where
  no_check : Check
  asking : (manual : Bool) → Check
  staging : EditorRelease → Check

-- Where the installation stands. `installing` is set while it is not `no_install`.
pub data Install : Type 0 where
  no_install : Install
  flushing posting waiting : EditorRelease → Install

-- `aborted` is the signal of the pending check, `disposed` that of the lifetime. The last three
-- fields are a record of the past: the bundles that `prepareBundle` has staged completely, the
-- releases posted to the server, and the reloads.
pub record Updater : Type 0 where
  pub prepared : Option EditorRelease
  pub check : Check
  pub aborted : Bool
  pub install : Install
  pub interactive : Bool
  pub disposed : Bool
  pub status : UpdateStatus
  pub staged : List EditorRelease
  pub posted : List EditorRelease
  pub reloads : ℕ

abbrev pub new_updater : Updater
new_updater = record {
  prepared = none;
  check = no_check;
  aborted = false;
  install = no_install;
  interactive = false;
  disposed = false;
  status = idle;
  staged = [];
  posted = [];
  reloads = 0;
}

-- `check`: its guards, then its first request.
abbrev pub begin_check : Bool → Updater → Check → Install → Updater
begin_check manual u no_check no_install = record u {
  check = asking manual;
  aborted = false;
  status = if manual then checking else u.status;
}
begin_check manual u c i = u

abbrev pub check_now : Bool → Updater → Updater
check_now manual u = if u.interactive then begin_check manual u u.check u.install else u

-- A check that ends by an exception shows it, unless it was aborted.
abbrev pub check_failed : Updater → Updater
check_failed u = record u { check = no_check; status = if u.aborted then u.status else error }

abbrev pub already : EditorRelease → Option EditorRelease → Bool
already release none = false
already release (some prepared) = same_release prepared release

-- The answer names an available release.
abbrev pub offered : Bool → EditorRelease → Updater → Updater
offered manual release u =
    if already release u.prepared
    then record u { check = no_check; status = if manual then ready release else u.status }
    else record u { prepared = none; check = staging release; status = downloading release }

-- `install`, whose first step is to flush the editor's state.
abbrev pub begin_install : Updater → Option EditorRelease → Install → Updater
begin_install u (some release) no_install = record u {
  install = flushing release;
  status = installing release;
}
begin_install u prepared i = u

abbrev pub install_failed : Updater → Updater
install_failed u = record u {
  prepared = none;
  install = no_install;
  status = if u.disposed then u.status else error;
}

pub data Event (u : Updater) : Updater → Type 0 where
  -- `setInteractive(true)` and `setInteractive(false)`
  show : u.disposed ≡ false → Event u (check_now false (record u { interactive = true }))
  hide : u.disposed ≡ false → Event u (record u { interactive = false; aborted = true })
  dispose : Event u (record u { interactive = false; aborted = true; disposed = true })
  -- The timer, and the action `check`
  tick : (manual : Bool) → Event u (check_now manual u)
  -- The action `install`
  press : u.interactive ≡ true → Event u (begin_install u u.prepared u.install)
  -- How the request of a check ends
  none_available :
      (manual : Bool)
      → u.check ≡ asking manual
      → u.aborted ≡ false
      → Event u (record u { prepared = none; check = no_check; status = idle })
  available :
      (manual : Bool) (release : EditorRelease)
      → u.check ≡ asking manual
      → u.aborted ≡ false
      → Event u (offered manual release u)
  ask_failed : (manual : Bool) → u.check ≡ asking manual → Event u (check_failed u)
  -- How `prepareBundle` ends
  bundle_staged :
      (release : EditorRelease)
      → u.check ≡ staging release
      → u.aborted ≡ false
      → Event u (record u {
        prepared = some release;
        check = no_check;
        status = ready release;
        staged = release ∷ u.staged;
      })
  staging_failed : (release : EditorRelease) → u.check ≡ staging release → Event u (check_failed u)
  -- How the flush ends: the request is posted
  flushed :
      (release : EditorRelease)
      → u.install ≡ flushing release
      → u.disposed ≡ false
      → Event u (record u { install = posting release; posted = release ∷ u.posted })
  -- The server answers that a run goes on
  accepted :
      (release : EditorRelease)
      → u.install ≡ posting release
      → Event u (record u { install = waiting release })
  -- The server has nothing to do, or the workspace runs again
  done_at_once :
      (release : EditorRelease)
      → u.install ≡ posting release
      → u.disposed ≡ false
      → Event u (record u { install = no_install; reloads = suc u.reloads })
  running_again :
      (release : EditorRelease)
      → u.install ≡ waiting release
      → u.disposed ≡ false
      → Event u (record u { install = no_install; reloads = suc u.reloads })
  install_throws : u.install ≢ no_install → Event u (install_failed u)

pub data Reaches (u : Updater) : Updater → Type 0 where
  start : Reaches u u
  later : {v w : Updater} → Reaches u v → Event v w → Reaches u w
