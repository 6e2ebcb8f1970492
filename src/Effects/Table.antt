-- ===== src/Effects/Table.antt =====
-- The workspaces table: reading a row, updating the rows with an id, and what an update keeps.
use zedspaces.Base.{
  false, subst_some, Text, text_eq, text_eq_iff, ◌≡◌, sym, ◌∙◌, inl, inr, Option, none, some, List,
  [], ◌∷◌, All, Bool-cases, if◌then◌else◌,
}
use zedspaces.Schema.{Workspace}
use zedspaces.Effects.Api.{Platform}
use zedspaces.Effects.Monad.{World, M, ◌>>=◌, pure, get_db, modify_db}

-- `where id = … limit 1`
unfoldable pub find_row : Text → List Workspace → Option Workspace
find_row id [] = none
find_row id (r ∷ rs) = if text_eq r.id id then some r else find_row id rs

-- `update workspaces set … where id = …`
unfoldable pub update_rows : Text → (Workspace → Workspace) → List Workspace → List Workspace
update_rows id f [] = []
update_rows id f (r ∷ rs) = (if text_eq r.id id then f r else r) ∷ update_rows id f rs

-- Every row with that id satisfies `φ`. (The id is the primary key: there is at most one.)
abbrev pub Rows : Text → (Workspace → Type 0) → List Workspace → Type 0
Rows id φ = All (λ r. r.id ≡ id → φ r)

pub Rows-find_row :
    (id : Text) (φ : Workspace → Type 0) (rs : List Workspace) {r : Workspace}
    → Rows id φ rs
    → find_row id rs ≡ some r
    → φ r × (r.id ≡ id)
unfolding find_row
Rows-find_row id φ [] h e = cc
Rows-find_row id φ (x ∷ rs) {r} h e = elim (Bool-cases (text_eq x.id id)) [
  | inl same ↦
      subst_some (λ y. φ y × (y.id ≡ id)) x r (rw (same, find_row) at e)
        (h.0 ((text_eq_iff _ _).0 same), (text_eq_iff _ _).0 same)
  | inr different ↦ Rows-find_row id φ rs h.1 (rw (different, find_row) at e)
]

pub Rows-update :
    (id : Text) (φ ψ : Workspace → Type 0) (f : Workspace → Workspace) (rs : List Workspace)
    → ((r : Workspace) → φ r → ψ (f r))
    → Rows id φ rs
    → Rows id ψ (update_rows id f rs)
unfolding update_rows
Rows-update id φ ψ f [] keep h = tt
Rows-update id φ ψ f (r ∷ rs) keep (hr, h) = (
  elim (Bool-cases (text_eq r.id id)) [
    | inl same ↦ rw same (λ _. keep r (hr ((text_eq_iff _ _).0 same)))
    | inr different ↦ rw different (λ q. absurd (clash r different q))
  ],
  Rows-update id φ ψ f rs keep h,
)
  where
    clash : (r : Workspace) → text_eq r.id id ≡ false → r.id ≡ id → ⊥
    clash r no_match q = cc ((text_eq_iff r.id id).1 q)

pub Rows-any : (id : Text) (rs : List Workspace) → Rows id (λ _. Unit) rs
Rows-any id [] = tt
Rows-any id (r ∷ rs) = (λ _. tt, Rows-any id rs)

-- An update of any workspace's row that keeps `φ` and the id.
pub Rows-update_any :
    (id j : Text) (φ : Workspace → Type 0) (f : Workspace → Workspace) (rs : List Workspace)
    → ((r : Workspace) → (f r).id ≡ r.id)
    → ((r : Workspace) → φ r → φ (f r))
    → Rows id φ rs
    → Rows id φ (update_rows j f rs)
unfolding update_rows
Rows-update_any id j φ f [] same keep h = tt
Rows-update_any id j φ f (r ∷ rs) same keep (hr, h) = (
  elim (Bool-cases (text_eq r.id j)) [
    | inl hit ↦ rw hit (λ q. keep r (hr (sym (same r) ∙ q)))
    | inr miss ↦ rw miss hr
  ],
  Rows-update_any id j φ f rs same keep h,
)

-- An update of another workspace's row.
pub Rows-update_other :
    (id j : Text) (φ : Workspace → Type 0) (f : Workspace → Workspace) (rs : List Workspace)
    → text_eq j id ≡ false
    → ((r : Workspace) → (f r).id ≡ r.id)
    → Rows id φ rs
    → Rows id φ (update_rows j f rs)
unfolding update_rows
Rows-update_other id j φ f [] apart same h = tt
Rows-update_other id j φ f (r ∷ rs) apart same (hr, h) = (
  elim (Bool-cases (text_eq r.id j)) [
    | inl hit ↦ rw hit (λ q. absurd (clash (sym ((text_eq_iff r.id j).0 hit) ∙ sym (same r) ∙ q)))
    | inr miss ↦ rw miss hr
  ],
  Rows-update_other id j φ f rs apart same h,
)
  where
    clash : j ≡ id → ⊥
    clash q = cc ((text_eq_iff j id).1 q)

-- What every row satisfies, every row still satisfies.
pub Rows-weaken :
    (id : Text) (φ ψ : Workspace → Type 0) (rs : List Workspace)
    → ((r : Workspace) → φ r → ψ r)
    → Rows id φ rs
    → Rows id ψ rs
Rows-weaken id φ ψ [] k h = tt
Rows-weaken id φ ψ (r ∷ rs) k (hr, h) = (λ q. k r (hr q), Rows-weaken id φ ψ rs k h)

module _ {p : Platform} where
  -- `select().from(workspaces).where(id = …).limit(1)`
  unfoldable pub select_workspace : Text → M p (Option Workspace)
  unfolding get_db
  select_workspace id = do db ← get_db; pure (find_row id db.workspaces)

  unfoldable pub update_workspace : Text → (Workspace → Workspace) → M p (Unit {0})
  unfolding modify_db
  update_workspace id f =
      modify_db (λ db. record db { workspaces = update_rows id f db.workspaces })

  -- The row of the workspace, in a world.
  abbrev pub RowHas : Text → (Workspace → Type 0) → World p → Type 0
  RowHas id φ w = Rows id φ w.db.workspaces
