-- ===== src/Updater/Staged.antt =====
-- The updater installs only what it has staged, and nothing after it has been disposed of.
use zedspaces.Base.{
  ◌≡◌, ◌⊎◌, inl, inr, refl, subst, Bool, true, false, Option, none, some, List, [], ◌∷◌, All,
  Bool-cases, if◌then◌else◌,
}
use zedspaces.Schema.{EditorRelease}
use zedspaces.Updater.{
  Updater, Check, no_check, asking, staging, Install, no_install, flushing, posting, waiting, Event,
  show, hide, dispose, tick, press, none_available, available, ask_failed, bundle_staged,
  staging_failed, flushed, accepted, done_at_once, running_again, install_throws, Reaches, start,
  later, new_updater, check_now, begin_check, begin_install, offered, already,
}

abbrev pub Among : List EditorRelease → EditorRelease → Type 0
Among [] r = ⊥
Among (x ∷ xs) r = (x ≡ r) ⊎ Among xs r

abbrev pub AmongSome : List EditorRelease → Option EditorRelease → Type 0
AmongSome staged none = Unit
AmongSome staged (some r) = Among staged r

-- The release that is being installed has been staged.
abbrev pub AmongInstall : List EditorRelease → Install → Type 0
AmongInstall staged no_install = Unit
AmongInstall staged (flushing r) = Among staged r
AmongInstall staged (posting r) = Among staged r
AmongInstall staged (waiting r) = Among staged r

pub record OnlyStaged (u : Updater) : Type 0 where
  pub prepared : AmongSome u.staged u.prepared
  pub install : AmongInstall u.staged u.install
  pub posted : All (Among u.staged) u.posted

only :
    (u : Updater)
    → AmongSome u.staged u.prepared
    → AmongInstall u.staged u.install
    → All (Among u.staged) u.posted
    → OnlyStaged u
only u p i q = record { prepared = p; install = i; posted = q }

grow :
    (x : EditorRelease) (staged rs : List EditorRelease)
    → All (Among staged) rs
    → All (Among (x ∷ staged)) rs
grow x staged [] h = tt
grow x staged (r ∷ rs) (hr, h) = (inr hr, grow x staged rs h)

grow_install :
    (x : EditorRelease) (staged : List EditorRelease) (i : Install)
    → AmongInstall staged i
    → AmongInstall (x ∷ staged) i
grow_install x staged no_install h = tt
grow_install x staged (flushing r) h = inr h
grow_install x staged (posting r) h = inr h
grow_install x staged (waiting r) h = inr h

OnlyStaged-begin_check :
    (manual : Bool) (u : Updater) (c : Check) (i : Install)
    → OnlyStaged u
    → OnlyStaged (begin_check manual u c i)
OnlyStaged-begin_check manual u no_check no_install h = only _ h.prepared h.install h.posted
OnlyStaged-begin_check manual u no_check (flushing r) h = h
OnlyStaged-begin_check manual u no_check (posting r) h = h
OnlyStaged-begin_check manual u no_check (waiting r) h = h
OnlyStaged-begin_check manual u (asking m) i h = h
OnlyStaged-begin_check manual u (staging r) i h = h

OnlyStaged-check_now :
    (manual : Bool) (u : Updater) → OnlyStaged u → OnlyStaged (check_now manual u)
OnlyStaged-check_now manual u h = go u.interactive
  where
    go : (b : Bool) → OnlyStaged (if b then begin_check manual u u.check u.install else u)
    go true = OnlyStaged-begin_check manual u u.check u.install h
    go false = h

OnlyStaged-begin_install :
    (u : Updater) (o : Option EditorRelease) (i : Install)
    → AmongSome u.staged o
    → OnlyStaged u
    → OnlyStaged (begin_install u o i)
OnlyStaged-begin_install u none i q h = h
OnlyStaged-begin_install u (some r) no_install q h = only _ h.prepared q h.posted
OnlyStaged-begin_install u (some r) (flushing x) q h = h
OnlyStaged-begin_install u (some r) (posting x) q h = h
OnlyStaged-begin_install u (some r) (waiting x) q h = h

OnlyStaged-offered :
    (manual : Bool) (release : EditorRelease) (u : Updater)
    → OnlyStaged u
    → OnlyStaged (offered manual release u)
OnlyStaged-offered manual release u h = elim (Bool-cases (already release u.prepared)) [
  | inl same ↦ rw same (only _ h.prepared h.install h.posted)
  | inr new ↦ rw new (only _ tt h.install h.posted)
]

OnlyStaged-Event : {u v : Updater} → Event u v → OnlyStaged u → OnlyStaged v
OnlyStaged-Event {u} (show live) h =
    OnlyStaged-check_now false (record u { interactive = true })
      (only _ h.prepared h.install h.posted)
OnlyStaged-Event (hide live) h = only _ h.prepared h.install h.posted
OnlyStaged-Event dispose h = only _ h.prepared h.install h.posted
OnlyStaged-Event {u} (tick manual) h = OnlyStaged-check_now manual u h
OnlyStaged-Event {u} (press on) h = OnlyStaged-begin_install u u.prepared u.install h.prepared h
OnlyStaged-Event (none_available manual e live) h = only _ tt h.install h.posted
OnlyStaged-Event {u} (available manual release e live) h = OnlyStaged-offered manual release u h
OnlyStaged-Event (ask_failed manual e) h = only _ h.prepared h.install h.posted
OnlyStaged-Event {u} (bundle_staged release e live) h = record {
  prepared = inl refl;
  install = grow_install release u.staged u.install h.install;
  posted = grow release u.staged u.posted h.posted;
}
OnlyStaged-Event (staging_failed release e) h = only _ h.prepared h.install h.posted
OnlyStaged-Event {u} (flushed release e live) h = record {
  prepared = h.prepared;
  install = subst (AmongInstall u.staged) e h.install;
  posted = (subst (AmongInstall u.staged) e h.install, h.posted);
}
OnlyStaged-Event {u} (accepted release e) h = record {
  prepared = h.prepared;
  install = subst (AmongInstall u.staged) e h.install;
  posted = h.posted;
}
OnlyStaged-Event (done_at_once release e live) h = only _ h.prepared tt h.posted
OnlyStaged-Event (running_again release e live) h = only _ h.prepared tt h.posted
OnlyStaged-Event (install_throws busy) h = only _ tt tt h.posted

-- In every state that a tab's updater reaches, the release that is prepared, the one being
-- installed and every one posted to the server have had their bundles staged completely before.
pub Reaches-OnlyStaged : {u : Updater} → Reaches new_updater u → OnlyStaged u
Reaches-OnlyStaged start = only _ tt tt tt
Reaches-OnlyStaged (later r st) = OnlyStaged-Event st (Reaches-OnlyStaged r)
