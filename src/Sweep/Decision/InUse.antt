-- ===== src/Sweep/Decision/InUse.antt =====
-- A workspace that someone uses is not stopped.
use zedspaces.Base.{
  ℕ, ◌+◌, ◌*◌, ◌<◌, ◌≡◌, ◌⊎◌, inl, inr, refl, true, false, Option, none, some, max, arith, leb,
  is_some, get_or, ◌&&◌, not,
}
use zedspaces.Schema.{Workspace}
use zedspaces.Sweep.Decision.{
  Reading, restart_cap, extend, choose, number, is_idle, is_recently_used, cpu_strikes, max_of,
  holds_of,
}

-- The supervisor reports work, or the last input is within the idle window.
abbrev pub InUse : ℕ → Workspace → Reading → Type 0
InUse t row reading =
    (is_some reading.busy ≡ true)
    ⊎ ((last : ℕ) × (number reading.activity ≡ some last) × (t < last + row.idle_minutes * 60000))

is_idle-active :
    (t : ℕ) (row : Workspace) (reading : Reading) (last : ℕ)
    → number reading.activity ≡ some last
    → t < last + row.idle_minutes * 60000
    → is_idle t row reading ≡ false
unfolding is_idle
is_idle-active t row reading last e h = rw e (go (number reading.keepalive))
  where
    go :
        (o : Option ℕ)
        → holds_of
            (λ l. leb (l + row.idle_minutes * 60000) t)
            (max_of
              (max_of (some last) o)
              (some (max (get_or t row.session_started_at) row.last_active_at)))
          ≡ false
    go none = refl
    go (some k) = ground (arith, h)

-- A workspace with an open editor session and fewer than 30 strikes of the CPU rule, whose
-- supervisor reports work or whose last input is within the idle window, is never stopped by the
-- conditions of the sweep: they choose the restart at the session cap or the extension of the
-- timeout.
pub choose-InUse :
    (cap t : ℕ) (row : Workspace) (reading : Reading) (strikes : ℕ)
    → reading.attached ≡ true
    → number reading.cpu ≡ some strikes
    → strikes < cpu_strikes
    → InUse t row reading
    → (choose cap t row reading ≡ restart_cap) ⊎ (choose cap t row reading ≡ extend)
unfolding choose is_recently_used
choose-InUse cap t row reading strikes attached few below in_use =
    rw (few, few_strikes, still_used in_use, attached) (ground arith)
  where
    few_strikes : leb cpu_strikes strikes ≡ false
    few_strikes = ground (arith, below)

    still_used : InUse t row reading → is_idle t row reading && not (is_some reading.busy) ≡ false
    still_used (inl busy) = rw busy (ground arith)
    still_used (inr (last, e, h)) = rw (is_idle-active t row reading last e h) refl
