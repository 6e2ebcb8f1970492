-- ===== src/Workflows/Loops.antt =====
-- The polling loops end by their deadlines: with fuel for the time up to the deadline, none hangs.
use zedspaces.Base.{
  ℕ, zero, suc, ◌+◌, ◌*◌, ◌<◌, ◌≤◌, Bool, true, false, Text, Option, none, some, arith, ltb, ◌≡◌,
  refl, ◌||◌, if◌then◌else◌,
}
use zedspaces.Schema.{Workspace}
use zedspaces.Health.{HealthProbe, probe_health}
use zedspaces.Effects.{Platform, M, SandboxHandle, now, ◌>>=◌, pause, ◌>>◌}
use zedspaces.Effects.Ends.{
  IsTimely, Ends, Ends-bind, Ends-then, Ends-pure, Ends-throw, Ends-if, Ends-catch, Ends-call,
  Ends-when, Ends-now, Ends-select, Ends-update, Ends-pause_then, Ends-timed,
}
use zedspaces.Steps.Supervisor.{get_handle, handle_of, is_running}
use zedspaces.Steps.Commands.{
  step_probe_health, note_phase, write_reason, boot_reason, step_wait_for_command_exit, wait_on,
  wait_if,
}
use zedspaces.Workflows.Ready.{Boot, wait_ready, ready_round, not_yet, accept_build, is_serving}
use zedspaces.Workflows.Stop.{wait_shutdown, shutdown_round, has_shut_down}
use zedspaces.Workflows.Rebuild.{wait_archive, archive_exit}

module _ {p : Platform} (timely : IsTimely p) where
  module _ {t : ℕ} where
    pub Ends-get : (name : Text) (resume : Bool) → Ends t (get_handle {p = p} name resume)
    unfolding get_handle
    Ends-get name resume = Ends-bind (Ends-call (p.get name resume) (timely.gets name resume)) found
      where
        found : (o : Option (SandboxHandle × Bool)) → Ends t (handle_of {p = p} o)
        found none = Ends-pure none
        found (some hit) = Ends-pure (some hit.0)

    Ends-write : (j reason : Text) (o : Option Workspace) → Ends t (write_reason {p = p} j reason o)
    unfolding write_reason
    Ends-write j reason none = Ends-pure tt
    Ends-write j reason (some r) =
        Ends-when _ (Ends-bind Ends-now (λ u. Ends-update j (boot_reason reason u)))

    Ends-note : (j : Text) (o : Option HealthProbe) → Ends t (note_phase {p = p} j o)
    unfolding note_phase
    Ends-note j none = Ends-pure tt
    Ends-note j (some probe) = Ends-bind (Ends-select j) (λ row. Ends-write j _ row)

    Ends-probe : (j host : Text) → Ends t (step_probe_health {p = p} j host)
    unfolding step_probe_health probe_health
    Ends-probe j host =
        Ends-bind (fetched host) (λ probe. Ends-then (Ends-note j probe) (Ends-pure probe))
      where
        fetched : (host : Text) → Ends t (probe_health {p = p} host)
        fetched host = record { ends = λ w le. omega (arith, le, timely.fetches host w.cloud) }

    pub Ends-wait :
        (name cmd : Text) (ms : ℕ) → Ends t (step_wait_for_command_exit {p = p} name cmd ms)
    unfolding step_wait_for_command_exit wait_on
    Ends-wait name cmd ms = Ends-bind (Ends-catch (Ends-get name false) (λ e. Ends-pure none)) found
      where
        polled : (h : SandboxHandle) (b : Bool) → Ends t (wait_if {p = p} h cmd ms b)
        polled h true =
            Ends-catch
              (Ends-bind (Ends-call (p.wait_command h cmd ms) (timely.waits h cmd ms))
                (λ code. Ends-pure (some code)))
              (λ e. Ends-pure none)
        polled h false = Ends-pure none

        found : (o : Option SandboxHandle) → Ends t (wait_on {p = p} o cmd ms)
        found none = Ends-pure none
        found (some h) = polled h (is_running h.status)

    -- A round that goes on after a pause only while the deadline has not passed.
    Ends-retry :
        (over : Bool) (deadline ms : ℕ) (stop again : M p (Unit {0}))
        → Ends t stop
        → (t ≤ deadline → Ends (t + ms) again)
        → Ends t (now >>= λ u. if over || ltb deadline u then stop else (pause ms >> again))
    Ends-retry over deadline ms stop again ended h =
        Ends-timed (λ u le. decide over u le (ltb deadline u) refl)
      where
        decide :
            (over : Bool) (u : ℕ)
            → t ≤ u
            → (b : Bool) → ltb deadline u ≡ b
            → Ends t (if over || b then stop else (pause ms >> again))
        decide true u le b e = ended
        decide false u le true e = ended
        decide false u le false e = Ends-pause_then timely ms (h (ground (arith, le, e)))

    Ends-ready_round :
        (b : Boot) (again : M p (Unit {0})) (health : Option HealthProbe)
        → (t ≤ b.deadline → Ends (t + 5000) again)
        → Ends t (ready_round b again health)
    unfolding ready_round accept_build not_yet
    Ends-ready_round b again health h =
        Ends-if (is_serving health) (Ends-if _ (Ends-pure tt) (Ends-throw _))
          (Ends-bind (Ends-wait _ _ _) exited)
      where
        exited : (exit : Option ℕ) → Ends t (not_yet b health again exit)
        exited (some code) = Ends-throw _
        exited none = Ends-retry false b.deadline 5000 _ again (Ends-throw _) h

    Ends-shutdown_round :
        (deadline : ℕ) (again : M p (Unit {0})) (health : Option HealthProbe)
        → (t ≤ deadline → Ends (t + 2000) again)
        → Ends t (shutdown_round deadline again health)
    unfolding shutdown_round
    Ends-shutdown_round deadline again health h =
        Ends-retry (has_shut_down health) deadline 2000 _ again (Ends-pure tt) h

    Ends-archive_exit :
        (deadline : ℕ) (again : M p (Unit {0})) (exit : Option ℕ)
        → (t ≤ deadline → Ends (t + 5000) again)
        → Ends t (archive_exit deadline again exit)
    unfolding archive_exit
    Ends-archive_exit deadline again (some code) h = Ends-if _ (Ends-pure tt) (Ends-throw _)
    Ends-archive_exit deadline again none h =
        Ends-retry false deadline 5000 _ again (Ends-throw _) h

  -- On a platform whose clock does not go back, whose sleeps take their time and whose reads
  -- answer, the readiness loop run at a time `t` or later does not hang if its deadline is less
  -- than five seconds for each unit of fuel but the last after `t`, and it does not set the clock
  -- back before `t`.
  pub wait_ready-Ends :
      (fuel t : ℕ) (b : Boot)
      → b.deadline < t + fuel * 5000
      → Ends t (wait_ready {p = p} (suc fuel) b)
  unfolding wait_ready
  wait_ready-Ends zero t b enough =
      Ends-bind (Ends-probe _ _)
        (λ health. Ends-ready_round b _ health (λ before. absurd (late before enough)))
    where
      late : t ≤ b.deadline → b.deadline < t + 0 * 5000 → ⊥
      late x y = omega (arith, x, y)
  wait_ready-Ends (suc fuel) t b enough = Ends-bind (Ends-probe _ _) (λ health.
      Ends-ready_round b _ health
        (λ before. wait_ready-Ends fuel (t + 5000) b (omega (arith, enough))))

  -- On a platform whose clock does not go back, whose sleeps take their time and whose reads
  -- answer, the wait for the supervisor's shutdown run at a time `t` or later does not hang if its
  -- deadline is less than two seconds for each unit of fuel but the last after `t`, and it does
  -- not set the clock back before `t`.
  pub wait_shutdown-Ends :
      (fuel t : ℕ) (id host : Text) (deadline : ℕ)
      → deadline < t + fuel * 2000
      → Ends t (wait_shutdown {p = p} (suc fuel) id host deadline)
  unfolding wait_shutdown
  wait_shutdown-Ends zero t id host deadline enough =
      Ends-bind (Ends-probe _ _)
        (λ health. Ends-shutdown_round deadline _ health (λ before. absurd (late before enough)))
    where
      late : t ≤ deadline → deadline < t + 0 * 2000 → ⊥
      late x y = omega (arith, x, y)
  wait_shutdown-Ends (suc fuel) t id host deadline enough = Ends-bind (Ends-probe _ _) (λ health.
      Ends-shutdown_round deadline _ health
        (λ before. wait_shutdown-Ends fuel (t + 2000) id host deadline (omega (arith, enough))))

  -- On a platform whose clock does not go back, whose sleeps take their time and whose reads
  -- answer, the wait for the archive run at a time `t` or later does not hang if its deadline is
  -- less than five seconds for each unit of fuel but the last after `t`, and it does not set the
  -- clock back before `t`.
  pub wait_archive-Ends :
      (fuel t : ℕ) (name cmd : Text) (deadline : ℕ)
      → deadline < t + fuel * 5000
      → Ends t (wait_archive {p = p} (suc fuel) name cmd deadline)
  unfolding wait_archive
  wait_archive-Ends zero t name cmd deadline enough =
      Ends-bind (Ends-wait name cmd 30000)
        (λ exit. Ends-archive_exit deadline _ exit (λ before. absurd (late before enough)))
    where
      late : t ≤ deadline → deadline < t + 0 * 5000 → ⊥
      late x y = omega (arith, x, y)
  wait_archive-Ends (suc fuel) t name cmd deadline enough =
      Ends-bind (Ends-wait name cmd 30000) (λ exit.
        Ends-archive_exit deadline _ exit
          (λ before. wait_archive-Ends fuel (t + 5000) name cmd deadline (omega (arith, enough))))
