-- ===== src/Examples/Sweeps.antt =====
-- Sweeps and activity reports of the demo platform.
use zedspaces.Base.{◌≡◌, ◌⊎◌, refl, inl, inr, true, lit, none, some, arith, pos, false}
use zedspaces.Schema.{Workspace}
use zedspaces.Effects.{Platform, RunStatus}
use zedspaces.Effects.Keeps.{Keeps}
use zedspaces.Sweep.{reconcile_runs, sweep}
use zedspaces.Sweep.Capped.{Capped, sweep-Capped}
use zedspaces.Sweep.Live.{reconcile_runs-Unchanged}
use zedspaces.Sweep.Decision.{Reading, choose, restart_cap, extend, number, stop_abuse, stop_idle}
use zedspaces.Sweep.Decision.InUse.{choose-InUse}
use zedspaces.Activity.{ActivityReport, activity_instant, new_activity, with_activity, number_text}
use zedspaces.Activity.Bounds.{Remembers, choose-Silent}
use zedspaces.Examples.Demo.{demo, demo_id, demo_workspace}

-- The demo platform, with every run under way.
abbrev busy_platform : Platform
busy_platform = record demo { run_status = λ run_id t. (t, RunStatus.running) }

reconcile_runs-Unchanged_example :
    Keeps demo_id (λ r. r ≡ demo_workspace) (λ l. Unit) (reconcile_runs {p = busy_platform} 5000)
reconcile_runs-Unchanged_example =
    reconcile_runs-Unchanged busy_platform demo_id (lit "run") (λ s. inr refl) demo_workspace refl
      5000

sweep-Capped_example :
    Keeps demo_id (Capped demo.env.session_cap_ms 7) (λ l. Unit) (sweep {p = demo} 5000)
sweep-Capped_example = sweep-Capped demo demo_id 7 (λ l. Unit) 5000

-- The last input was at 1000; the supervisor reports a restore.
abbrev attached_reading : Reading
attached_reading = record {
  activity = some (lit "1000");
  keepalive = none;
  health = some (lit "1");
  cpu = some (lit "3");
  busy = some (lit "restore");
  attached = true;
}

choose-InUse_example :
    (choose 14400000 9000000 demo_workspace attached_reading ≡ restart_cap)
    ⊎ (choose 14400000 9000000 demo_workspace attached_reading ≡ extend)
unfolding number lit
choose-InUse_example =
    choose-InUse 14400000 9000000 demo_workspace attached_reading 3 refl refl (omega arith)
      (inl refl)

-- A session that began at 1000.
abbrev started_workspace : Workspace
started_workspace = record demo_workspace { session_started_at = some 1000; last_active_at = 1000 }

-- The VM claims an input far in the future.
abbrev lying_report : ActivityReport
lying_report = record {
  last_input_at = some (pos 999999999);
  busy = false;
  phase = lit "ready";
  cpu_busy_pct = some 3;
  listening = none;
}

started_workspace-Remembers : Remembers started_workspace none 2000
unfolding number
started_workspace-Remembers = record {
  stored = (0, refl, omega arith);
  row = omega arith;
  started = (1000, refl, omega arith);
}

-- What the sweep reads later, once the busy key and the keepalive are gone.
abbrev silent_reading : Reading
silent_reading = record {
  activity = some (number_text (activity_instant started_workspace lying_report true 2000 none));
  keepalive = none;
  health = none;
  cpu = none;
  busy = none;
  attached = true;
}

choose-Silent_example :
    (choose 14400000 1832000
        (with_activity none
          (new_activity started_workspace 2000
            (activity_instant started_workspace lying_report true 2000 none))
          2000
          started_workspace)
        silent_reading
      ≡ stop_abuse)
    ⊎ (choose 14400000 1832000
          (with_activity none
            (new_activity started_workspace 2000
              (activity_instant started_workspace lying_report true 2000 none))
            2000
            started_workspace)
          silent_reading
        ≡ stop_idle)
unfolding number
choose-Silent_example =
    choose-Silent started_workspace lying_report true 2000 none none 14400000 1832000 0
      silent_reading started_workspace-Remembers refl (0, refl, omega arith) refl refl (omega arith)
