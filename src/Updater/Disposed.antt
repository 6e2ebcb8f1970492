-- ===== src/Updater/Disposed.antt =====
-- A disposed updater neither posts nor reloads.
use zedspaces.Base.{
  ◌≡◌, refl, Bool, true, false, Option, none, some, if◌then◌else◌, Bool-cases, inl, inr,
}
use zedspaces.Schema.{EditorRelease}
use zedspaces.Updater.{
  Updater, Check, no_check, asking, staging, Install, no_install, flushing, posting, waiting, Event,
  show, hide, dispose, tick, press, none_available, available, ask_failed, bundle_staged,
  staging_failed, flushed, accepted, done_at_once, running_again, install_throws, Reaches, start,
  later, check_now, begin_check, begin_install, offered, already,
}

-- What an updater has done to the workspace and the page, in a disposed state.
abbrev pub Inert : Updater → Updater → Type 0
Inert u v = (v.disposed ≡ true) × (v.posted ≡ u.posted) × (v.reloads ≡ u.reloads)

Inert-begin_check :
    (u : Updater) (manual : Bool) (v : Updater) (c : Check) (i : Install)
    → Inert u v
    → Inert u (begin_check manual v c i)
Inert-begin_check u manual v no_check no_install h = h
Inert-begin_check u manual v no_check (flushing r) h = h
Inert-begin_check u manual v no_check (posting r) h = h
Inert-begin_check u manual v no_check (waiting r) h = h
Inert-begin_check u manual v (asking m) i h = h
Inert-begin_check u manual v (staging r) i h = h

Inert-check_now :
    (u : Updater) (manual : Bool) (v : Updater) → Inert u v → Inert u (check_now manual v)
Inert-check_now u manual v h = go v.interactive
  where
    go : (b : Bool) → Inert u (if b then begin_check manual v v.check v.install else v)
    go true = Inert-begin_check u manual v v.check v.install h
    go false = h

Inert-begin_install :
    (u v : Updater) (o : Option EditorRelease) (i : Install)
    → Inert u v
    → Inert u (begin_install v o i)
Inert-begin_install u v none i h = h
Inert-begin_install u v (some r) no_install h = h
Inert-begin_install u v (some r) (flushing x) h = h
Inert-begin_install u v (some r) (posting x) h = h
Inert-begin_install u v (some r) (waiting x) h = h

Inert-offered :
    (u : Updater) (manual : Bool) (release : EditorRelease) (v : Updater)
    → Inert u v
    → Inert u (offered manual release v)
Inert-offered u manual release v h = elim (Bool-cases (already release v.prepared)) [
  | inl same ↦ rw same h
  | inr new ↦ rw new h
]

Inert-Event : (u : Updater) {v w : Updater} → Event v w → Inert u v → Inert u w
Inert-Event u {v} (show live) h = Inert-check_now u false (record v { interactive = true }) h
Inert-Event u (hide live) h = h
Inert-Event u dispose h = (refl, h.1, h.2)
Inert-Event u {v} (tick manual) h = Inert-check_now u manual v h
Inert-Event u {v} (press on) h = Inert-begin_install u v v.prepared v.install h
Inert-Event u (none_available manual e live) h = h
Inert-Event u {v} (available manual release e live) h = Inert-offered u manual release v h
Inert-Event u (ask_failed manual e) h = h
Inert-Event u (bundle_staged release e live) h = h
Inert-Event u (staging_failed release e) h = h
Inert-Event u (flushed release e live) h = absurd (cc)
Inert-Event u (accepted release e) h = h
Inert-Event u (done_at_once release e live) h = absurd (cc)
Inert-Event u (running_again release e live) h = absurd (cc)
Inert-Event u (install_throws busy) h = h

-- An updater that has been disposed of stays so: no later step posts a release to the server or
-- reloads the page.
pub Reaches-Inert : {u v : Updater} → u.disposed ≡ true → Reaches u v → Inert u v
Reaches-Inert gone start = (gone, refl, refl)
Reaches-Inert {u} gone (later r st) = Inert-Event u st (Reaches-Inert gone r)
