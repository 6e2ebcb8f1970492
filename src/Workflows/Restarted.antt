-- ===== src/Workflows/Restarted.antt =====
-- Child runs end, and with them the workflows that run others.
use zedspaces.Base.{
  ℕ, zero, suc, ◌-◌, ◌+◌, ◌*◌, ◌<◌, ◌≤◌, Bool, true, false, Text, lit, ◌++◌, Option, none, some,
  ltb, arith, ◌≡◌, refl, if◌then◌else◌, ◌&&◌, ◌||◌,
}
use zedspaces.Effects.{
  Platform, World, M, ◌>>=◌, ◌>>◌, pure, throw, pause, Res, ok, err, hung, RunStatus, fatal,
}
use zedspaces.Effects.Ends.{
  Answered, IsPrompt, EndsAt, Ends, Ends-bind, Ends-then, Ends-pure, Ends-throw, Ends-catch,
  Ends-call, Ends-now, Ends-at, Ends-timed, Ends-pause_then, Ends-modify, Ends-read,
}
use zedspaces.Kv
use zedspaces.Workflows.Child.{
  Settled, is_terminal, is_unknown, unknown_ceiling_ms, child_token_ttl_ms, start_unless,
  step_start_child, step_child_status, poll_child, await_child, settled, child_result, run_child,
}
use zedspaces.Workflows.Restart.{stop_child, connect_child, restart_session}
use zedspaces.Workflows.Ended.{stop_workspace-Ends, connect_workspace-Ends}
use zedspaces.Workflows.Prompt.{Ends-finish, Ends-abandon}

-- The run store answers, and reports each run that it is asked about as ended or as unknown: the
-- parent asks only after the child's body has ended.
pub record IsSettling (p : Platform) : Type 0 where
  pub prompt : IsPrompt p
  pub starts : (name : Text) (s : p.State) → Answered p.clock (p.clock s) (p.start name s)
  pub asks : (run : Text) (s : p.State) → p.clock s ≤ p.clock (p.run_status run s).0
  pub settles :
      (run : Text) (s : p.State)
      → is_terminal (p.run_status run s).1 || is_unknown (p.run_status run s).1 ≡ true

module _ {p : Platform} (settling : IsSettling p) where
  module _ {t : ℕ} where
    Ends-start_unless :
        (name key : Text) (o : Option Text) → Ends t (start_unless {p = p} name key o)
    unfolding start_unless
    Ends-start_unless name key (some run) = Ends-pure run
    Ends-start_unless name key none =
        Ends-bind (Ends-call (p.start name) (settling.starts name)) (λ run. Ends-bind Ends-now (λ u.
          Ends-then
            (Ends-modify
              (λ d. record d { kv = (Kv.set key run (some child_token_ttl_ms) false u d.kv).0 }))
            (Ends-pure run)))

    Ends-start_child : (token name : Text) → Ends t (step_start_child {p = p} token name)
    unfolding step_start_child
    Ends-start_child token name =
        Ends-bind Ends-now (λ u. Ends-bind Ends-read (λ db. Ends-start_unless name _ _))

    Ends-settled : {A : Type 0} {body : M p A} → Ends t body → Ends t (λ w. settled (body w))
    unfolding settled
    Ends-settled {A} {body} h = record { ends = λ w le. go (body w) (h.ends w le) }
      where
        go : (x : World p × Res A) → EndsAt t x → EndsAt t (settled x)
        go (w, ok a) q = q
        go (w, err e) q = q
        go (w, hung) q = q

    Ends-result : (name : Text) (end : Settled) → Ends t (child_result {p = p} name end)
    unfolding child_result
    Ends-result name Settled.returned = Ends-pure tt
    Ends-result name (Settled.threw e) = Ends-throw _

    Ends-poll :
        (name : Text) (started : ℕ) (again : M p (Unit {0})) (status : RunStatus)
        → is_terminal status || is_unknown status ≡ true
        → (t ≤ started + unknown_ceiling_ms → Ends (t + 5000) again)
        → Ends t (poll_child name started again status)
    unfolding poll_child
    Ends-poll name started again status known h = Ends-timed (λ u le.
        decide u le (is_terminal status) (is_unknown status) known
          (ltb unknown_ceiling_ms (u - started)) refl)
      where
        decide :
            (u : ℕ)
            → t ≤ u
            → (terminal unknown : Bool) → terminal || unknown ≡ true
            → (late : Bool) → ltb unknown_ceiling_ms (u - started) ≡ late
            → Ends t (
                if terminal
                then pure tt
                else if unknown && late
                then throw (fatal (lit "child_" ++ name ++ lit "_lost"))
                else (do pause 5000; again))
        decide u le true unknown known late e = Ends-pure tt
        decide u le false true known true e = Ends-throw _
        decide u le false true known false e =
            Ends-pause_then settling.prompt.timely 5000 (h (ground (arith, le, e)))
        decide u le false false known late e = ground (arith, known)

  Ends-status :
      {t : ℕ} {A : Type 0} (run : Text) {f : RunStatus → M p A}
      → ((status : RunStatus) → is_terminal status || is_unknown status ≡ true → Ends t (f status))
      → Ends t (step_child_status {p = p} run >>= f)
  unfolding step_child_status
  Ends-status run k = record {
    ends = λ w le.
        (k (p.run_status run w.cloud).1 (settling.settles run w.cloud)).ends _
          (omega (arith, le, settling.asks run w.cloud));
  }

  pub await_child-Ends :
      (fuel t : ℕ) (name run : Text) (started : ℕ)
      → started + unknown_ceiling_ms < t + fuel * 5000
      → Ends t (await_child {p = p} (suc fuel) name run started)
  unfolding await_child
  await_child-Ends zero t name run started enough = Ends-status run (λ status known.
      Ends-poll name started _ status known (λ before. absurd (late before enough)))
    where
      late : t ≤ started + unknown_ceiling_ms → started + unknown_ceiling_ms < t + 0 * 5000 → ⊥
      late x y = omega (arith, x, y)
  await_child-Ends (suc fuel) t name run started enough = Ends-status run (λ status known.
      Ends-poll name started _ status known
        (λ before. await_child-Ends fuel (t + 5000) name run started (omega (arith, enough))))

  module _ {t : ℕ} where
    pub run_child-Ends :
        (fuel : ℕ) (name : Text) {body : M p (Unit {0})}
        → unknown_ceiling_ms < fuel * 5000
        → Ends t body
        → Ends t (run_child (suc fuel) name body)
    unfolding run_child
    run_child-Ends fuel name enough h =
        Ends-bind (Ends-call p.random settling.prompt.randoms) (λ token.
          Ends-bind (Ends-start_child token name) (λ run. Ends-bind (Ends-settled h) (λ end.
            Ends-at (λ u le.
              Ends-then (await_child-Ends fuel u name run u (omega (arith, enough)))
                (Ends-result name end)))))

    -- On a platform whose calls answer, whose clock does not go back and whose run store reports
    -- each run that it is asked about as ended or as unknown, a whole run of `restartSession`, its
    -- two children included, started at a time `t` or later, does not hang if the fuel but the
    -- last unit gives more than 45 minutes at five seconds each: it returns or throws, and it does
    -- not set the clock back before `t`.
    pub restart_session-Ends :
        (fuel : ℕ) (id : Text)
        → 2700000 < fuel * 5000
        → Ends t (restart_session {p = p} (suc fuel) id)
    unfolding restart_session stop_child connect_child
    restart_session-Ends fuel id enough =
        Ends-catch
          (Ends-then
            (run_child-Ends fuel _ enough
              (stop_workspace-Ends settling.prompt fuel _ (omega (arith, enough))))
            (Ends-then
              (run_child-Ends fuel _ enough
                (connect_workspace-Ends settling.prompt fuel _ (omega (arith, enough))))
              (Ends-finish id _)))
          (Ends-abandon id false)
