-- ===== src/Connect/Reconnect.antt =====
-- A tab that reconnects starts nothing.
use zedspaces.Base.{
  ℕ, zero, suc, ◌≡◌, ◌⊎◌, refl, inl, inr, false, Text, lit, Option, none, some, List, [], ◌∷◌,
  Bool-cases, Bool, true, ap, if◌then◌else◌, not, ◌&&◌,
}
use zedspaces.Schema.{Workspace, WorkspaceState, stopped, Session}
use zedspaces.Health.{HealthProbe, probe_health}
use zedspaces.Effects.{Platform, Op, M, Removal}
use zedspaces.Effects.Keeps.{
  Keeps, Keeps-bind, Keeps-then, Keeps-pure, Keeps-throw, Keeps-call, Keeps-now, Keeps-pause,
  Keeps-catch, Keeps-if, Keeps-get_db, Keeps-modify, Keeps-update, Keeps-select,
}
use zedspaces.Lifecycle.Keeps.{Keeps-is_run_active}
use zedspaces.Sessions.{SessionInput}
use zedspaces.Steps.Keeps.{Keeps-get, Keeps-close_sessions}
use zedspaces.Sweep.Running.{says_running}
use zedspaces.Connect.Liveness.{
  SandboxLiveness, alive, unhealthy, dead, Seen, unread, missing, found, probe_again, probe_seen,
  judge, detect_at, detect_dead_sandbox, mark_workspace_lost, lost, is_ready, may_answer,
}
use zedspaces.Connect.Request.{reconnect, ConnectInput}
use zedspaces.Connect.{
  mint_at, open_or_reuse_session, connect_ready, connect_running, connect_stopped, connect_live,
  connect_now, connect_idle, post_connect, is_reconnect,
}

-- The run that the row names is `run_id`, and its state is `state` or has become `stopped`.
abbrev pub Unstarted : Option Text → WorkspaceState → Workspace → Type 0
Unstarted run_id state r = (r.workflow_run_id ≡ run_id) × ((r.state ≡ state) ⊎ (r.state ≡ stopped))

module _ (run_id : Option Text) (state : WorkspaceState) where
  lost-Unstarted :
      (reason : Text) (t : ℕ) (r : Workspace)
      → Unstarted run_id state r
      → Unstarted run_id state (lost reason t r)
  unfolding lost
  lost-Unstarted reason t r h = elim (Bool-cases (says_running r.state)) [
    | inl up ↦ rw up (h.0, inr refl)
    | inr down ↦ rw down h
  ]

lost-id : (reason : Text) (t : ℕ) (r : Workspace) → (lost reason t r).id ≡ r.id
unfolding lost
lost-id reason t r = elim (Bool-cases (says_running r.state)) [
  | inl up ↦ rw up refl
  | inr down ↦ rw down refl
]

module _ {p : Platform} {id : Text} {φ : Workspace → Type 0} {ρ : List Removal → Type 0} where
  -- A branch that is not for a reconnecting tab.
  Keeps-skip :
      {A : Type 0} (b c : Bool) (m m' : M p A)
      → b ≡ true
      → Keeps id φ ρ m'
      → Keeps id φ ρ (if not b && c then m else m')
  Keeps-skip true c m m' e h = h
  Keeps-skip false c m m' e h = absurd (cc)

  Keeps-probe : (host : Text) → Keeps id φ ρ (probe_health {p = p} host)
  unfolding probe_health
  Keeps-probe host = record { triple = λ w h. h }

  Keeps-probe_again :
      (n : ℕ) (host : Text) (probe answered : Option HealthProbe)
      → Keeps id φ ρ (probe_again {p = p} n host probe answered)
  unfolding probe_again
  Keeps-probe_again zero host probe answered = Keeps-pure _
  Keeps-probe_again (suc n) host probe answered = Keeps-if (is_ready probe) (Keeps-pure _) (
      Keeps-then (Keeps-pause _)
        (Keeps-bind (Keeps-probe host) (λ next. Keeps-probe_again n host next _)))

  Keeps-judge : (host : Text) (seen : Seen) → Keeps id φ ρ (judge {p = p} host seen)
  unfolding judge
  Keeps-judge host seen = judged seen
    where
      probed : (s : Seen) → Keeps id φ ρ (probe_seen {p = p} host s)
      probed s =
          Keeps-bind (Keeps-probe host)
            (λ first. Keeps-bind (Keeps-probe_again 2 host first _) (λ probes. Keeps-pure _))

      judged : (s : Seen) → Keeps id φ ρ (judge {p = p} host s)
      judged unread = probed unread
      judged missing = probed missing
      judged (found h) = Keeps-if (may_answer h.status) (probed (found h)) (Keeps-pure _)

  Keeps-detect :
      (ws : Workspace) (ws_host health_host : Option Text)
      → Keeps id φ ρ (detect_at {p = p} ws ws_host health_host)
  unfolding detect_at
  Keeps-detect ws none health_host = Keeps-pure _
  Keeps-detect ws (some []) health_host = Keeps-pure _
  Keeps-detect ws (some (c ∷ s)) none = Keeps-pure _
  Keeps-detect ws (some (c ∷ s)) (some []) = Keeps-pure _
  Keeps-detect ws (some (c ∷ s)) (some (d ∷ host)) =
      Keeps-bind
        (Keeps-catch (Keeps-bind (Keeps-get ws.sandbox_name false) (λ h. Keeps-pure _))
          (λ e. Keeps-pure unread))
        (λ seen. Keeps-judge (d ∷ host) seen)

module _ (p : Platform) (sign : Workspace → Session → Text → Op p.State Text) (id : Text)
    (run_id : Option Text) (state : WorkspaceState) (ρ : List Removal → Type 0) where
  abbrev pub Quiet : {A : Type 0} → M p A → Type 0
  Quiet m = Keeps {p = p} id (Unstarted run_id state) ρ m

  Keeps-mark_lost : (ws : Workspace) (reason : Text) → Quiet (mark_workspace_lost ws reason)
  unfolding mark_workspace_lost
  Keeps-mark_lost ws reason = Keeps-bind Keeps-now (λ t.
      Keeps-then (Keeps-close_sessions ws.id (lit "sandbox_lost")) (
        Keeps-then
          (Keeps-update ws.id (lost reason t) (lost-id reason t)
            (lost-Unstarted run_id state reason t))
          (Keeps-bind (Keeps-select ws.id) (λ row. Keeps-pure _))))

  Keeps-mint :
      (ws : Workspace) (session : Session) (host : Option Text)
      → Quiet (mint_at sign ws session host)
  unfolding mint_at
  Keeps-mint ws session none = Keeps-throw _
  Keeps-mint ws session (some []) = Keeps-throw _
  Keeps-mint ws session (some (c ∷ host)) = Keeps-bind (Keeps-call p.random) (λ bytes.
      Keeps-bind (Keeps-call _) (λ token. Keeps-then (Keeps-modify _ (λ db. refl)) (Keeps-pure _)))

  Keeps-open : (ws : Workspace) (input : SessionInput) → Quiet (open_or_reuse_session sign ws input)
  unfolding open_or_reuse_session
  Keeps-open ws input = Keeps-bind (Keeps-call p.random) (λ bytes.
      Keeps-bind Keeps-now (λ t.
        Keeps-bind Keeps-get_db (λ db. Keeps-then (Keeps-modify _ (λ d. refl)) (Keeps-pure _))))

  Keeps-ready :
      (ws : Workspace) (probe : HealthProbe) (user : Text) (input : ConnectInput)
      (host : Option Text)
      → Quiet (connect_ready sign ws probe user input host)
  unfolding connect_ready
  Keeps-ready ws probe user input none = Keeps-throw _
  Keeps-ready ws probe user input (some []) = Keeps-throw _
  Keeps-ready ws probe user input (some (c ∷ host)) =
      Keeps-bind (Keeps-open ws _)
        (λ session. Keeps-bind (Keeps-mint ws session ws.current_ws_host) (λ info. Keeps-pure _))

  module _ (user : Text) (input : ConnectInput) (redial : input.reason ≡ reconnect) where
    Keeps-stopped : (ws : Workspace) → Quiet (connect_stopped sign user input ws)
    unfolding connect_stopped
    Keeps-stopped ws = rw redial (Keeps-throw _)

    Keeps-live :
        (ws : Workspace) (liveness : SandboxLiveness)
        → Quiet (connect_live sign user input ws liveness)
    unfolding connect_live connect_running
    Keeps-live ws (alive probe) =
        Keeps-if probe.ready (Keeps-ready ws probe user input ws.current_ws_host) (Keeps-throw _)
    Keeps-live ws (unhealthy probe) = Keeps-throw _
    Keeps-live ws (dead reason) =
        Keeps-bind (Keeps-mark_lost ws reason)
          (λ live. Keeps-if (says_running live.state) (Keeps-throw _) (Keeps-stopped live))

    Keeps-connect_now : (ws : Workspace) → Quiet (connect_now sign user input ws)
    unfolding connect_now detect_dead_sandbox
    Keeps-connect_now ws = Keeps-if _ (Keeps-throw _) (
        Keeps-if (says_running ws.state)
          (Keeps-bind (Keeps-detect ws ws.current_ws_host ws.current_health_host)
            (λ liveness. Keeps-live ws liveness))
          (Keeps-stopped ws))

    Keeps-idle : (ws : Workspace) → Quiet (connect_idle sign user input ws)
    unfolding connect_idle
    Keeps-idle ws =
        Keeps-skip (is_reconnect input.reason) _ _ _ (ap is_reconnect redial) (Keeps-connect_now ws)

    -- A tab that asks for a connection in order to reconnect starts nothing, whatever the platform
    -- answers and whether the request is answered or refused: the row of every workspace keeps the
    -- run that it names, or none, and keeps its state or becomes stopped.
    pub post_connect-Unstarted :
        (ws : Workspace)
        → Keeps {p = p} id (Unstarted run_id state) ρ (post_connect sign user input ws)
    unfolding post_connect
    post_connect-Unstarted ws =
        Keeps-bind (Keeps-is_run_active ws.workflow_run_id)
          (λ active. Keeps-if _ (Keeps-throw _) (Keeps-idle ws))
