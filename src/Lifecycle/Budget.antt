-- ===== src/Lifecycle/Budget.antt =====
-- Admission keeps the code's own count of workspaces within the budget.
use zedspaces.Base.{
  ℕ, ◌+◌, ◌≤◌, Bool, true, false, not, ◌&&◌, Text, text_eq, text_eq_iff, none, some, List, [], ◌∷◌,
  ltb, ◌≡◌, refl, sym, All, arith, Bool-cases, inl, inr, if◌then◌else◌, subst_some,
}
use zedspaces.Schema.{Workspace, Env}
use zedspaces.Effects.Table.{find_row, update_rows}
use zedspaces.Lifecycle.{
  LifecycleWorkflowName, activates, is_active_state, counts, load, has_capacity, reserved,
  reserve_rows,
}

-- The id is the primary key.
abbrev pub IsAbsent : Text → List Workspace → Type 0
IsAbsent id rows = All (λ r. text_eq r.id id ≡ false) rows

abbrev pub DistinctIds : List Workspace → Type 0
DistinctIds [] = Unit
DistinctIds (r ∷ rs) = IsAbsent r.id rs × DistinctIds rs

-- One more row in the count, or not.
abbrev pub step : Bool → ℕ → ℕ
step b n = if b then n + 1 else n

step-≤ : (b : Bool) (n m : ℕ) → n ≤ m → step b n ≤ m + 1
step-≤ b n m h = ground (arith, h)

counts_other :
    (id : Text) (r : Workspace) → text_eq r.id id ≡ false → counts (some id) r ≡ counts none r
unfolding counts
counts_other id r miss = rw miss refl

load-absent :
    (id : Text) (f : Workspace → Workspace) (rows : List Workspace)
    → IsAbsent id rows
    → (load none (update_rows id f rows) ≡ load none rows) × (load (some id) rows ≡ load none rows)
unfolding load update_rows
load-absent id f [] h = (refl, refl)
load-absent id f (r ∷ rs) h = (
  rw (h.0, (load-absent id f rs h.1).0) refl,
  rw (counts_other id r h.0, (load-absent id f rs h.1).1) refl,
)

IsAbsent-of : (id j : Text) (rows : List Workspace) → j ≡ id → IsAbsent j rows → IsAbsent id rows
IsAbsent-of id j rows e h = rw (← e) h

-- The reserved row adds at most one to the count of the others.
load-update-le :
    (id : Text) (f : Workspace → Workspace) (rows : List Workspace)
    → DistinctIds rows
    → load none (update_rows id f rows) ≤ load (some id) rows + 1
unfolding load update_rows
load-update-le id f [] d = omega arith
load-update-le id f (r ∷ rs) d = elim (Bool-cases (text_eq r.id id)) [
  | inl hit ↦ rw (hit, (absent hit).0, (absent hit).1) (two _ _ (load none rs))
  | inr miss ↦ rw miss (mono _ _ _ (load-update-le id f rs d.1))
]
  where
    absent :
        text_eq r.id id ≡ true
        → (load none (update_rows id f rs) ≡ load none rs) × (load (some id) rs ≡ load none rs)
    absent hit = load-absent id f rs (IsAbsent-of id r.id rs ((text_eq_iff r.id id).0 hit) d.0)

    two : (b c : Bool) (n : ℕ) → step b n ≤ step c n + 1
    two b c n = ground arith

    mono : (b : Bool) (n m : ℕ) → n ≤ m + 1 → step b n ≤ step b m + 1
    mono b n m h = ground (arith, h)

-- A row in an active state counts already.
counts_active :
    (run_id : Text) (t : ℕ) (r : Workspace)
    → is_active_state r.state ≡ true
    → counts none (reserved run_id t r) ≡ counts none r
unfolding counts reserved
counts_active run_id t r act = rw act refl

load-update_active :
    (id run_id : Text) (t : ℕ) (cur : Workspace) (rows : List Workspace)
    → DistinctIds rows
    → find_row id rows ≡ some cur
    → is_active_state cur.state ≡ true
    → load none (update_rows id (reserved run_id t) rows) ≡ load none rows
unfolding load update_rows find_row
load-update_active id run_id t cur [] d e act = cc
load-update_active id run_id t cur (r ∷ rs) d e act = elim (Bool-cases (text_eq r.id id)) [
  | inl hit ↦ rw (hit, (absent hit).0, counts_active run_id t r (active (rw hit at e))) refl
  | inr miss ↦ rw (miss, load-update_active id run_id t cur rs d.1 (rw miss at e) act) refl
]
  where
    absent :
        text_eq r.id id ≡ true
        → (load none (update_rows id (reserved run_id t) rs) ≡ load none rs)
          × (load (some id) rs ≡ load none rs)
    absent hit =
        load-absent id (reserved run_id t) rs
          (IsAbsent-of id r.id rs ((text_eq_iff r.id id).0 hit) d.0)

    active : some r ≡ some cur → is_active_state r.state ≡ true
    active q = subst_some (λ x. is_active_state x.state ≡ true) cur r (sym q) act

-- With distinct ids, an admitted run of a kind that the code checks keeps the code's count within
-- the budget.
pub reserve_rows-counted :
    (e : Env) (id : Text) (name : LifecycleWorkflowName) (cur : Workspace) (run_id : Text) (t : ℕ)
    (rows rows' : List Workspace)
    → DistinctIds rows
    → find_row id rows ≡ some cur
    → activates name ≡ true
    → load none rows ≤ e.max_running_workspaces
    → reserve_rows e id name cur.state run_id t rows ≡ some rows'
    → load none rows' ≤ e.max_running_workspaces
unfolding reserve_rows has_capacity
reserve_rows-counted e id name cur run_id t rows rows' d found act h q =
    branch (is_active_state cur.state) refl (ltb (load (some id) rows) e.max_running_workspaces)
      refl (rw act at q)
  where
    after : List Workspace
    after = update_rows id (reserved run_id t) rows

    ended :
        some after ≡ some rows'
        → load none after ≤ e.max_running_workspaces
        → load none rows' ≤ e.max_running_workspaces
    ended s k = subst_some (λ x. load none x ≤ e.max_running_workspaces) after rows' s k

    room :
        (n m : ℕ) → n ≤ m + 1 → ltb m e.max_running_workspaces ≡ true → n ≤ e.max_running_workspaces
    room n m le lt = ground (arith, le, lt)

    branch :
        (a : Bool)
        → is_active_state cur.state ≡ a
        → (c : Bool) → ltb (load (some id) rows) e.max_running_workspaces ≡ c
        → (if not a && not c then none else some after) ≡ some rows'
        → load none rows' ≤ e.max_running_workspaces
    branch true ea c ec s = ended s (rw (load-update_active id run_id t cur rows d found ea) h)
    branch false ea true ec s = ended s (
        room (load none after) (load (some id) rows) (load-update-le id (reserved run_id t) rows d)
          ec)
    branch false ea false ec s = cc
