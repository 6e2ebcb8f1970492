-- ===== src/Effects/Keeps.antt =====
-- Invariants of effectful code: `Keeps id φ ρ m` says that `m` leaves the row of workspace `id`
-- with `φ` and the removals with `ρ` if it finds them so, whether it returns or throws.
use zedspaces.Base.{
  Bool, true, false, Text, text_eq, ◌≡◌, Option, none, some, List, ◌∷◌, ℕ, if◌then◌else◌,
}
use zedspaces.Schema.{Workspace}
use zedspaces.Effects.Errors.{Error, Res, ok, err, hung}
use zedspaces.Effects.Api.{Platform, Op}
use zedspaces.Effects.Monad.{
  Db, Removal, World, M, ◌>>=◌, ◌>>◌, pure, throw, hang, catch, when, call, now, pause, get_db,
  modify_db, note_removal, some_or,
}
use zedspaces.Effects.Table.{
  select_workspace, update_workspace, RowHas, Rows, Rows-update_any, Rows-update_other,
}
use zedspaces.Effects.Hoare.{After, Triple, bind_rule, catch_rule}

module _ {p : Platform} (id : Text) (φ : Workspace → Type 0) (ρ : List Removal → Type 0) where
  abbrev pub Inv : World p → Type 0
  Inv w = RowHas id φ w × ρ w.removed

  pub record Keeps {A : Type 0} (m : M p A) : Type 0 where
    pub triple : Triple Inv m (λ _. Inv) Inv

module _ {p : Platform} {id : Text} {φ : Workspace → Type 0} {ρ : List Removal → Type 0} where
  module _ {A B : Type 0} where
    pub Keeps-bind :
        {m : M p A} {f : A → M p B}
        → Keeps id φ ρ m
        → ((a : A) → Keeps id φ ρ (f a))
        → Keeps id φ ρ (m >>= f)
    Keeps-bind {m = m} {f = f} h k = record {
      triple =
          bind_rule (Inv id φ ρ) (Inv id φ ρ) (λ _. Inv id φ ρ) (λ _. Inv id φ ρ) m f h.triple
            (λ a. (k a).triple);
    }

  module _ {B : Type 0} where
    pub Keeps-then :
        {m : M p (Unit {0})} {k : M p B} → Keeps id φ ρ m → Keeps id φ ρ k → Keeps id φ ρ (m >> k)
    Keeps-then {m = m} {k = k} h h' = record {
      triple =
          bind_rule (Inv id φ ρ) (Inv id φ ρ) (λ _. Inv id φ ρ) (λ _. Inv id φ ρ) m (λ _. k)
            h.triple (λ _. h'.triple);
    }

  module _ {A : Type 0} where
    pub Keeps-pure : (a : A) → Keeps id φ ρ (pure {p = p} a)
    Keeps-pure a = record { triple = λ w h. h }

    pub Keeps-hang : Keeps id φ ρ (hang {p = p} {A = A})
    Keeps-hang = record { triple = λ w h. tt }

    pub Keeps-if :
        (b : Bool) {m m' : M p A}
        → Keeps id φ ρ m
        → Keeps id φ ρ m'
        → Keeps id φ ρ (if b then m else m')
    Keeps-if true h h' = h
    Keeps-if false h h' = h'

    pub Keeps-throw : (e : Error) → Keeps id φ ρ (throw {p = p} {A = A} e)
    Keeps-throw e = record { triple = λ w h. h }

    pub Keeps-catch :
        {m : M p A} {h : Error → M p A}
        → Keeps id φ ρ m
        → ((e : Error) → Keeps id φ ρ (h e))
        → Keeps id φ ρ (catch m h)
    Keeps-catch {m = m} {h = h} k r = record {
      triple =
          catch_rule (Inv id φ ρ) (λ _. Inv id φ ρ) (Inv id φ ρ) (Inv id φ ρ) m h k.triple
            (λ e. (r e).triple);
    }

    pub Keeps-some_or : (o : Option A) (e : Error) → Keeps id φ ρ (some_or {p = p} o e)
    unfolding some_or
    Keeps-some_or none e = Keeps-throw e
    Keeps-some_or (some a) e = Keeps-pure a

    pub Keeps-call : (op : Op p.State A) → Keeps id φ ρ (call {p = p} op)
    unfolding call
    Keeps-call op = record { triple = λ w h. answered w (op w.cloud) h }
      where
        answered :
            (w : World p) (x : p.State × Res A)
            → Inv id φ ρ w
            → After (λ _. Inv id φ ρ) (Inv id φ ρ) (record w { cloud = x.0 }, x.1)
        answered w (c, ok a) h = h
        answered w (c, err e) h = h
        answered w (c, hung) h = tt

  pub Keeps-when : (b : Bool) {m : M p (Unit {0})} → Keeps id φ ρ m → Keeps id φ ρ (when b m)
  Keeps-when true h = h
  Keeps-when false h = Keeps-pure tt

  pub Keeps-now : Keeps id φ ρ (now {p = p})
  unfolding now
  Keeps-now = record { triple = λ w h. h }

  pub Keeps-get_db : Keeps id φ ρ (get_db {p = p})
  unfolding get_db
  Keeps-get_db = record { triple = λ w h. h }

  pub Keeps-select : (j : Text) → Keeps id φ ρ (select_workspace {p = p} j)
  unfolding select_workspace
  Keeps-select j = record { triple = λ w h. h }

  pub Keeps-pause : (ms : ℕ) → Keeps id φ ρ (pause {p = p} ms)
  unfolding pause
  Keeps-pause ms = record { triple = λ w h. h }

  -- What follows a read of the tables knows what the invariant says of the rows.
  pub Keeps-read :
      {A : Type 0} {f : Db → M p A}
      → ((db : Db) → Rows id φ db.workspaces → Keeps id φ ρ (f db))
      → Keeps id φ ρ (get_db >>= f)
  unfolding get_db
  Keeps-read k = record { triple = λ w h. (k w.db h.0).triple w h }

  pub Keeps-update_other :
      (j : Text) (f : Workspace → Workspace)
      → text_eq j id ≡ false
      → ((r : Workspace) → (f r).id ≡ r.id)
      → Keeps id φ ρ (update_workspace {p = p} j f)
  unfolding update_workspace
  Keeps-update_other j f apart same = record {
    triple = λ w h. (Rows-update_other id j φ f w.db.workspaces apart same h.0, h.1);
  }

  pub Keeps-store :
      (rows : List Workspace)
      → Rows id φ rows
      → Keeps id φ ρ (modify_db {p = p} (λ db. record db { workspaces = rows }))
  unfolding modify_db
  Keeps-store rows h = record { triple = λ w q. (h, q.1) }

  -- A change of other tables.
  pub Keeps-modify :
      (f : Db → Db)
      → ((db : Db) → (f db).workspaces ≡ db.workspaces)
      → Keeps id φ ρ (modify_db {p = p} f)
  unfolding modify_db
  Keeps-modify f same = record { triple = λ w h. (rw (same w.db) h.0, h.1) }

  pub Keeps-update :
      (j : Text) (f : Workspace → Workspace)
      → ((r : Workspace) → (f r).id ≡ r.id)
      → ((r : Workspace) → φ r → φ (f r))
      → Keeps id φ ρ (update_workspace {p = p} j f)
  unfolding update_workspace
  Keeps-update j f same keep = record {
    triple = λ w h. (Rows-update_any id j φ f w.db.workspaces same keep h.0, h.1);
  }

  pub Keeps-note :
      (x : Removal) → ((l : List Removal) → ρ l → ρ (x ∷ l)) → Keeps id φ ρ (note_removal {p = p} x)
  unfolding note_removal
  Keeps-note x grow = record { triple = λ w h. (h.0, grow w.removed h.1) }
