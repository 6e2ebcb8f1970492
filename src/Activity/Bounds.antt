-- ===== src/Activity/Bounds.antt =====
-- What a supervisor's report can claim, and how long a claim keeps a workspace from being idle.
use zedspaces.Base.{
  ℕ, ◌+◌, ◌*◌, ◌≤◌, ◌≡◌, ◌⊎◌, inl, inr, refl, ◌∙◌, ap, ℤ, Bool, true, false, Text, Option, none,
  some, max, min, leb, ltb, get_or, arith, Bool-cases, digits_value-decimal,
}
use zedspaces.Schema.{Workspace}
use zedspaces.Activity.{
  ActivityReport, is_busy, activity_instant, reported, remembered, max_int, number_text,
  new_activity, with_activity, clock_skew_ms, last_active_write_ms,
}
use zedspaces.Sweep.Decision.{Reading, stop_abuse, stop_idle, choose, is_idle, number}

-- An instant that leads the time `t` by the allowed skew at most.
abbrev pub Timely : ℕ → Option ℕ → Type 0
Timely t o = (a : ℕ) × (o ≡ some a) × (a ≤ t + clock_skew_ms)

-- What the control plane remembers of the workspace's activity leads `t` by the skew at most.
pub record Remembers (ws : Workspace) (previous : Option Text) (t : ℕ) : Type 0 where
  pub stored : Timely t (number previous)
  pub row : ws.last_active_at ≤ t + clock_skew_ms
  pub started : (s : ℕ) × (ws.session_started_at ≡ some s) × (s ≤ t)

remembered-Timely :
    (ws : Workspace) (previous : Option Text) (t : ℕ)
    → Remembers ws previous t
    → Timely t (remembered ws previous (get_or 0 ws.session_started_at))
remembered-Timely ws previous t known = (
  max (max known.stored.0 known.started.0) ws.last_active_at,
  rw (known.stored.1, known.started.1) refl,
  omega (arith, known.stored.2, known.started.2, known.row),
)

reported-Timely :
    (ws : Workspace) (input_at : Option ℤ) (attached : Bool) (t floor : ℕ) (previous : Option Text)
    → Timely t (remembered ws previous floor)
    → Timely t (reported ws input_at attached t previous floor)
reported-Timely ws none true t floor previous h = h
reported-Timely ws none false t floor previous h = h
reported-Timely ws (some input_at) false t floor previous h = h
reported-Timely ws (some input_at) true t floor previous h =
    (min (max_int input_at floor) (t + clock_skew_ms), refl, omega arith)

-- x
pub activity_instant-Timely :
    (ws : Workspace) (report : ActivityReport) (attached : Bool) (t : ℕ) (previous : Option Text)
    → Remembers ws previous t
    → Timely t (activity_instant ws report attached t previous)
unfolding activity_instant
activity_instant-Timely ws report attached t previous known =
    elim (Bool-cases (is_busy ws report t)) [
      | inl busy ↦ rw busy (t, refl, omega arith)
      | inr quiet ↦ rw quiet (
          reported-Timely ws report.last_input_at attached t _ previous
            (remembered-Timely ws previous t known))
    ]

new_activity-bound :
    (ws : Workspace) (t : ℕ) (at : Option ℕ)
    → ws.last_active_at ≤ t + clock_skew_ms
    → get_or ws.last_active_at (new_activity ws t at) ≤ t + clock_skew_ms
new_activity-bound ws t none h = h
new_activity-bound ws t (some at) h =
    elim (Bool-cases (ltb (ws.last_active_at + last_active_write_ms) at)) [
      | inl late ↦ rw late (omega arith)
      | inr early ↦ rw early h
    ]

number-number_text : (n : ℕ) → number (some (number_text (some n))) ≡ some n
unfolding number number_text
number-number_text n = digits_value-decimal n

is_idle-late :
    (u b a k s : ℕ) (row : Workspace) (reading : Reading)
    → number reading.activity ≡ some a
    → number reading.keepalive ≡ some k
    → row.session_started_at ≡ some s
    → max (max a k) (max s row.last_active_at) ≤ b
    → b + row.idle_minutes * 60000 ≤ u
    → is_idle u row reading ≡ true
unfolding is_idle
is_idle-late u b a k s row reading ea ek es bound late =
    rw (ea, ek, es) (late_enough (row.idle_minutes * 60000) late)
  where
    late_enough : (w : ℕ) → b + w ≤ u → leb (max (max a k) (max s row.last_active_at) + w) u ≡ true
    late_enough w h = ground (arith, bound, h)

-- What a report claims, whatever it says, keeps a workspace from being idle for a bounded time:
-- let the instants remembered before it and the keepalive lead the time `t` of the report by 30
-- seconds at most, its session have begun by `t`, and the CPU count be a number; then the
-- conditions of a sweep that runs at least 30 seconds and the idle window after `t`, and reads
-- what the report stored and no busy key, choose to stop the workspace, as idle or for the CPU
-- rule.
pub choose-Silent :
    (ws : Workspace) (report : ActivityReport) (attached : Bool) (t : ℕ) (previous : Option Text)
    (reason : Option (Option Text)) (cap u strikes : ℕ) (reading : Reading)
    → Remembers ws previous t
    → reading.activity ≡ some (number_text (activity_instant ws report attached t previous))
    → Timely t (number reading.keepalive)
    → number reading.cpu ≡ some strikes
    → reading.busy ≡ none
    → t + clock_skew_ms + ws.idle_minutes * 60000 ≤ u
    → (choose cap u
          (with_activity reason
            (new_activity ws t (activity_instant ws report attached t previous))
            t
            ws)
          reading
        ≡ stop_abuse)
      ⊎ (choose cap u
            (with_activity reason
              (new_activity ws t (activity_instant ws report attached t previous))
              t
              ws)
            reading
          ≡ stop_idle)
unfolding choose is_idle with_activity
choose-Silent ws report attached t previous reason cap u strikes reading known stored keepalive
      counted quiet late =
    rw (counted, quiet, idle) (ground arith)
  where
    at : Timely t (activity_instant ws report attached t previous)
    at = activity_instant-Timely ws report attached t previous known

    row : Workspace
    row =
        with_activity reason (new_activity ws t (activity_instant ws report attached t previous)) t
          ws

    idle : is_idle u row reading ≡ true
    idle =
        is_idle-late u (t + clock_skew_ms) at.0 keepalive.0 known.started.0 row reading
          (ap number stored
            ∙ ap (λ o. number (some (number_text o))) at.1
            ∙ number-number_text at.0)
          keepalive.1 known.started.1
          (omega (arith, at.2, keepalive.2, known.started.2, new_activity-bound ws t _ known.row))
          late
