-- ===== src/Examples/Updates.antt =====
-- A tab that is shown, stages a release, installs it and is disposed of.
use zedspaces.Base.{refl, true, false, some, ◌∷◌}
use zedspaces.Updater.{
  Updater, Reaches, start, later, show, available, bundle_staged, press, flushed, tick, new_updater,
  check_now, offered, begin_install, no_check, ready, posting,
}
use zedspaces.Updater.Staged.{OnlyStaged, Reaches-OnlyStaged}
use zedspaces.Updater.Disposed.{Inert, Reaches-Inert}
use zedspaces.Examples.Demo.{demo_release}

abbrev shown : Updater
shown = check_now false (record new_updater { interactive = true })

abbrev found : Updater
found = offered false demo_release shown

abbrev prepared : Updater
prepared = record found {
  prepared = some demo_release;
  check = no_check;
  status = ready demo_release;
  staged = demo_release ∷ found.staged;
}

abbrev pressed : Updater
pressed = begin_install prepared prepared.prepared prepared.install

abbrev sent : Updater
sent = record pressed { install = posting demo_release; posted = demo_release ∷ pressed.posted }

sent-Reaches : Reaches new_updater sent
sent-Reaches =
    later {v = pressed}
      (later {v = prepared}
        (later {v = found}
          (later {v = shown} (later {v = new_updater} start (show refl))
            (available false demo_release refl refl))
          (bundle_staged demo_release refl refl))
        (press refl))
      (flushed demo_release refl refl)

Reaches-OnlyStaged_example : OnlyStaged sent
Reaches-OnlyStaged_example = Reaches-OnlyStaged sent-Reaches

abbrev gone : Updater
gone = record sent { interactive = false; aborted = true; disposed = true }

gone-Reaches : Reaches gone (check_now true gone)
gone-Reaches = later {v = gone} start (tick true)

Reaches-Inert_example : Inert gone (check_now true gone)
Reaches-Inert_example = Reaches-Inert refl gone-Reaches
