-- ===== src/Effects/Ends.antt =====
-- Computations that end: `Ends t m` says that `m`, run at `t` or later, does not hang and does not
-- set the clock back before `t`.
use zedspaces.Base.{ℕ, ◌+◌, ◌≤◌, Bool, true, false, Option, none, some, arith, if◌then◌else◌, Text}
use zedspaces.Schema.{Workspace}
use zedspaces.Effects.Errors.{Error, Res, ok, err, hung}
use zedspaces.Effects.Api.{Platform, Op, SandboxHandle, CreateSandboxInput, RunInput}
use zedspaces.Effects.Monad.{
  World, M, ◌>>=◌, ◌>>◌, next, pure, throw, caught, catch, when, call, now, pause, lifted, get_db,
  some_or, Db, modify_db,
}
use zedspaces.Effects.Table.{select_workspace, update_workspace}

-- An answer, given at `t` or later.
abbrev pub Answered : {S A : Type 0} → (S → ℕ) → ℕ → S × Res A → Type 0
Answered clock t (s, ok a) = t ≤ clock s
Answered clock t (s, err e) = t ≤ clock s
Answered clock t (s, hung) = ⊥

-- The operations that the polling loops use answer, sleeping takes its time, and the clock does
-- not go back.
pub record IsTimely (p : Platform) : Type 0 where
  pub sleeps : (ms : ℕ) (s : p.State) → p.clock s + ms ≤ p.clock (p.sleep ms s)
  pub gets :
      (name : Text) (resume : Bool) (s : p.State)
      → Answered p.clock (p.clock s) (p.get name resume s)
  pub waits :
      (h : SandboxHandle) (cmd : Text) (ms : ℕ) (s : p.State)
      → Answered p.clock (p.clock s) (p.wait_command h cmd ms s)
  pub fetches : (host : Text) (s : p.State) → p.clock s ≤ p.clock (p.fetch_health host s).0

-- The operations that start and stop a sandbox answer too.
pub record IsPrompt (p : Platform) : Type 0 where
  pub timely : IsTimely p
  pub randoms : (s : p.State) → Answered p.clock (p.clock s) (p.random s)
  pub creates :
      (input : CreateSandboxInput) (s : p.State) → Answered p.clock (p.clock s) (p.create input s)
  pub commands :
      (h : SandboxHandle) (input : RunInput) (s : p.State)
      → Answered p.clock (p.clock s) (p.run_detached h input s)
  pub kills :
      (h : SandboxHandle) (cmd : Text) (s : p.State)
      → Answered p.clock (p.clock s) (p.kill_command h cmd s)
  pub stops : (h : SandboxHandle) (s : p.State) → Answered p.clock (p.clock s) (p.stop h s)

module _ {p : Platform} where
  abbrev pub EndsAt : {A : Type 0} → ℕ → World p × Res A → Type 0
  EndsAt t (w, r) = Answered p.clock t (w.cloud, r)

  pub record Ends {A : Type 0} (t : ℕ) (m : M p A) : Type 0 where
    pub ends : (w : World p) → t ≤ p.clock w.cloud → EndsAt t (m w)

module _ {p : Platform} {t : ℕ} where
  module _ {A B : Type 0} where
    pub Ends-bind :
        {m : M p A} {f : A → M p B} → Ends t m → ((a : A) → Ends t (f a)) → Ends t (m >>= f)
    Ends-bind {m = m} {f = f} h k = record { ends = λ w le. go (m w) (h.ends w le) }
      where
        go : (x : World p × Res A) → EndsAt t x → EndsAt t (next x f)
        go (w, ok a) h' = (k a).ends w h'
        go (w, err e) h' = h'
        go (w, hung) h' = h'

  module _ {B : Type 0} where
    pub Ends-then : {m : M p (Unit {0})} {k : M p B} → Ends t m → Ends t k → Ends t (m >> k)
    Ends-then {m = m} {k = k} h h' = record { ends = λ w le. go (m w) (h.ends w le) }
      where
        go : (x : World p × Res (Unit {0})) → EndsAt t x → EndsAt t (next x (λ _. k))
        go (w, ok a) q = h'.ends w q
        go (w, err e) q = q
        go (w, hung) q = q

  module _ {A : Type 0} where
    pub Ends-pure : (a : A) → Ends t (pure {p = p} a)
    Ends-pure a = record { ends = λ w le. le }

    pub Ends-throw : (e : Error) → Ends t (throw {p = p} {A = A} e)
    Ends-throw e = record { ends = λ w le. le }

    pub Ends-if : (b : Bool) {m m' : M p A} → Ends t m → Ends t m' → Ends t (if b then m else m')
    Ends-if true h h' = h
    Ends-if false h h' = h'

    pub Ends-catch :
        {m : M p A} {h : Error → M p A}
        → Ends t m
        → ((e : Error) → Ends t (h e))
        → Ends t (catch m h)
    Ends-catch {m = m} {h = h} k r = record { ends = λ w le. go (m w) (k.ends w le) }
      where
        go : (x : World p × Res A) → EndsAt t x → EndsAt t (caught x h)
        go (w, ok a) q = q
        go (w, err e) q = (r e).ends w q
        go (w, hung) q = q

    pub Ends-call :
        (op : Op p.State A)
        → ((s : p.State) → Answered p.clock (p.clock s) (op s))
        → Ends t (call {p = p} op)
    unfolding call
    Ends-call op law = record { ends = λ w le. go w (op w.cloud) le (law w.cloud) }
      where
        go :
            (w : World p) (x : p.State × Res A)
            → t ≤ p.clock w.cloud
            → Answered p.clock (p.clock w.cloud) x
            → EndsAt t (lifted w x)
        go w (s, ok a) le q = omega (arith, le, q)
        go w (s, err e) le q = omega (arith, le, q)
        go w (s, hung) le q = q

  pub Ends-when : (b : Bool) {m : M p (Unit {0})} → Ends t m → Ends t (when b m)
  Ends-when true h = h
  Ends-when false h = Ends-pure tt

  pub Ends-now : Ends t (now {p = p})
  unfolding now
  Ends-now = record { ends = λ w le. le }

  pub Ends-select : (j : Text) → Ends t (select_workspace {p = p} j)
  unfolding select_workspace get_db
  Ends-select j = record { ends = λ w le. le }

  pub Ends-update : (j : Text) (f : Workspace → Workspace) → Ends t (update_workspace {p = p} j f)
  unfolding update_workspace modify_db
  Ends-update j f = record { ends = λ w le. le }

  -- What follows a pause may start later.
  pub Ends-pause_then :
      (timely : IsTimely p) (ms : ℕ) {m : M p (Unit {0})} → Ends (t + ms) m → Ends t (pause ms >> m)
  unfolding pause
  Ends-pause_then timely ms {m} h = record {
    ends =
        λ w le. go (m (slept w)) (h.ends (slept w) (omega (arith, timely.sleeps ms w.cloud, le)));
  }
    where
      slept : World p → World p
      slept w = record w { cloud = p.sleep ms w.cloud }

      go : (x : World p × Res (Unit {0})) → EndsAt (t + ms) x → EndsAt t x
      go (w, ok a) q = omega (arith, q)
      go (w, err e) q = omega (arith, q)
      go (w, hung) q = q

  -- A decision on the time: at `t` or later.
  pub Ends-timed :
      {A : Type 0} {f : ℕ → M p A} → ((u : ℕ) → t ≤ u → Ends t (f u)) → Ends t (now >>= f)
  unfolding now
  Ends-timed k = record { ends = λ w le. (k (p.clock w.cloud) le).ends w le }

  -- What follows a look at the clock starts no earlier than the time that it saw.
  pub Ends-at : {A : Type 0} {f : ℕ → M p A} → ((u : ℕ) → t ≤ u → Ends u (f u)) → Ends t (now >>= f)
  unfolding now
  Ends-at {A} {f} k = record {
    ends = λ w le.
        go (p.clock w.cloud) le (f (p.clock w.cloud) w)
          ((k (p.clock w.cloud) le).ends w (omega arith));
  }
    where
      go : (u : ℕ) → t ≤ u → (x : World p × Res A) → EndsAt u x → EndsAt t x
      go u le (w, ok a) q = omega (arith, le, q)
      go u le (w, err e) q = omega (arith, le, q)
      go u le (w, hung) q = q

  pub Ends-some_or : {A : Type 0} (o : Option A) (e : Error) → Ends t (some_or {p = p} o e)
  unfolding some_or
  Ends-some_or none e = Ends-throw e
  Ends-some_or (some a) e = Ends-pure a

  pub Ends-read : Ends t (get_db {p = p})
  unfolding get_db
  Ends-read = record { ends = λ w le. le }

  -- A change of the tables.
  pub Ends-modify : (f : Db → Db) → Ends t (modify_db {p = p} f)
  unfolding modify_db
  Ends-modify f = record { ends = λ w le. le }
