-- ===== src/Steps/Orphans.antt =====
-- What the collector may delete.
use zedspaces.Base.{
  ℕ, ◌+◌, ◌*◌, Bool, true, false, not, ◌&&◌, ◌||◌, Text, text_eq, Option, none, some, List, [], ◌∷◌,
  ◌++◌, any, map, filter, is_some, ◌≡◌, refl, sym, ◌∙◌, All, arith, Bool-cases, inl, inr,
  if◌then◌else◌, ◌⊎◌, ◌≢◌, text_eq_iff,
}
use zedspaces.Schema.{Workspace}
use zedspaces.Effects.{SandboxStatus}
use zedspaces.Steps.Commands.{orphans_of, is_snapshotting}
use zedspaces.Steps.Db.{day_ms}
use zedspaces.Steps.Gc.{
  known_names, names_of, gc_candidates, is_expired, warn_retention, warn_row, is_due, is_before,
  is_stopped_state,
}

-- The name is listed.
abbrev pub Known : List Text → Text → Type 0
Known names name = any (text_eq name) names ≡ true

-- A row that is not deleted names its sandbox and the one that a rebuild replaces; an empty text in
-- the place of the latter names none.
abbrev pub IsNamedBy : Text → Workspace → Type 0
IsNamedBy name r =
    (r.deleted_at ≡ none)
    × ((r.sandbox_name ≡ name) ⊎ ((r.previous_sandbox_name ≡ some name) × (name ≢ [])))

any-append :
    (name : Text) (xs ys : List Text)
    → any (text_eq name) (xs ++ ys) ≡ any (text_eq name) xs || any (text_eq name) ys
any-append name [] ys = refl
any-append name (x ∷ xs) ys = ground (arith, any-append name xs ys)

Known-append : (name : Text) (xs ys : List Text) → Known ys name → Known (xs ++ ys) name
Known-append name xs ys h = ground (arith, any-append name xs ys, h)

append-Known : (name : Text) (xs ys : List Text) → Known xs name → Known (xs ++ ys) name
append-Known name xs ys h = ground (arith, any-append name xs ys, h)

names_of-Known :
    (name sandbox : Text) (previous : Option Text)
    → (sandbox ≡ name) ⊎ ((previous ≡ some name) × (name ≢ []))
    → Known (names_of sandbox previous) name
names_of-Known name sandbox none h = ground (arith, text_eq_iff name sandbox, h)
names_of-Known name sandbox (some []) h = ground (arith, text_eq_iff name sandbox, h)
names_of-Known name sandbox (some (c ∷ s)) h =
    ground (arith, text_eq_iff name sandbox, text_eq_iff name (c ∷ s), h)

-- The names of the rows that are not deleted are known.
known_names-cons :
    (name : Text) (r : Workspace) (rs : List Workspace)
    → Known (known_names rs) name
    → Known (known_names (r ∷ rs)) name
unfolding known_names
known_names-cons name r rs h = keep (is_some r.deleted_at)
  where
    ns : List Text
    ns = names_of r.sandbox_name r.previous_sandbox_name

    keep : (b : Bool) → Known (if b then known_names rs else ns ++ known_names rs) name
    keep true = h
    keep false = Known-append name ns (known_names rs) h

known_names-head :
    (name : Text) (r : Workspace) (rs : List Workspace)
    → IsNamedBy name r
    → Known (known_names (r ∷ rs)) name
unfolding known_names
known_names-head name r rs (live, h) = keep r.deleted_at live
  where
    ns : List Text
    ns = names_of r.sandbox_name r.previous_sandbox_name

    keep :
        (o : Option ℕ)
        → o ≡ none
        → Known (if is_some o then known_names rs else ns ++ known_names rs) name
    keep none e =
        append-Known name ns (known_names rs)
          (names_of-Known name r.sandbox_name r.previous_sandbox_name h)
    keep (some t) e = cc

All-mono :
    {A : Type 0} (P Q : A → Type 0) (xs : List A) → ((a : A) → P a → Q a) → All P xs → All Q xs
All-mono P Q [] f h = tt
All-mono P Q (x ∷ xs) f (hx, h) = (f x hx, All-mono P Q xs f h)

known_names-Known :
    (rows : List Workspace) (name : Text)
    → All (λ r. IsNamedBy name r → Known (known_names rows) name) rows
known_names-Known [] name = tt
known_names-Known (r ∷ rs) name = (
  known_names-head name r rs,
  All-mono (λ x. IsNamedBy name x → Known (known_names rs) name)
      (λ x. IsNamedBy name x → Known (known_names (r ∷ rs)) name) rs
      (λ x h k. known_names-cons name r rs (h k)) (known_names-Known rs name),
)

orphans_of-unknown :
    (known : List Text) (listed : List (Text × SandboxStatus))
    → All (λ name. any (text_eq name) known ≡ false) (orphans_of known listed)
unfolding orphans_of
orphans_of-unknown known [] = tt
orphans_of-unknown known ((name, status) ∷ rest) =
    listed (orphans_of-unknown known rest) (any (text_eq name) known) refl (is_snapshotting status)
  where
    more : List Text
    more = orphans_of known rest

    listed :
        All (λ n. any (text_eq n) known ≡ false) more
        → (b : Bool) → any (text_eq name) known ≡ b
        → (c : Bool)
        → All
            (λ n. any (text_eq n) known ≡ false)
            (if b then more else if c then more else name ∷ more)
    listed h true e c = h
    listed h false e true = h
    listed h false e false = (e, h)

-- No orphan that the collector picks from what the platform lists is the sandbox of a row that is
-- not deleted or, unless its name is empty, the sandbox that such a row names as the one that a
-- rebuild replaces.
pub orphans_of-unnamed :
    (at : ℕ) (rows : List Workspace) (listed : List (Text × SandboxStatus))
    → All
        (λ name. All (λ r. ¬ IsNamedBy name r) rows)
        (orphans_of (gc_candidates at rows).known_sandbox_names listed)
unfolding gc_candidates
orphans_of-unnamed at rows listed =
    All-mono (λ name. any (text_eq name) (known_names rows) ≡ false)
      (λ name. All (λ r. ¬ IsNamedBy name r) rows) (orphans_of (known_names rows) listed)
      (λ name unknown.
        All-mono (λ r. IsNamedBy name r → Known (known_names rows) name) (λ r. ¬ IsNamedBy name r)
          rows (λ r h named. clash (sym unknown ∙ h named)) (known_names-Known rows name))
      (orphans_of-unknown (known_names rows) listed)
  where
    clash : false ≡ true → ⊥
    clash e = cc

-- The rows whose retention has ended, warned or not.
abbrev pub is_over : ℕ → Workspace → Bool
is_over at r =
    is_stopped_state r.state && not (is_some r.deleted_at) && is_before r.retention_until at

is_expired-warn_row : (at : ℕ) (r : Workspace) → is_expired at (warn_row at r) ≡ is_over at r
unfolding is_expired warn_row is_due
is_expired-warn_row at r = elim (Bool-cases (is_due at r)) [
  | inl due ↦ rw due (ground arith)
  | inr early ↦
      rw early (
        guard (is_stopped_state r.state) r.deleted_at r.retention_warned_at r.retention_until early)
]
  where
    guard :
        (s : Bool) (d w u : Option ℕ)
        → (not (is_some d) && not (is_some w) && is_before u (at + 7 * day_ms)) ≡ false
        → (s && not (is_some d) && is_before u at && is_some w)
          ≡ (s && not (is_some d) && is_before u at)
    guard s d w none e = ground arith
    guard s d w (some x) e = ground (arith, e)

warn_row-id : (at : ℕ) (r : Workspace) → (warn_row at r).id ≡ r.id
unfolding warn_row
warn_row-id at r = elim (Bool-cases (is_due at r)) [
  | inl due ↦ rw due refl
  | inr early ↦ rw early refl
]

-- A change that leaves a key alone, under a test that takes it into account.
map-filter-map :
    {A B : Type 0} (f : A → A) (key : A → B) (test after : A → Bool) (xs : List A)
    → ((x : A) → after (f x) ≡ test x)
    → ((x : A) → key (f x) ≡ key x)
    → map key (filter after (map f xs)) ≡ map key (filter test xs)
map-filter-map f key test after [] et ek = refl
map-filter-map f key test after (x ∷ xs) et ek = elim (Bool-cases (test x)) [
  | inl hit ↦ rw (et x, hit, ek x, map-filter-map f key test after xs et ek) refl
  | inr miss ↦ rw (et x, miss) (map-filter-map f key test after xs et ek)
]

-- After the warnings of a collector's run have been stamped, the workspaces that the run deletes
-- are those that are stopped, not deleted and past their retention, whether or not an earlier run
-- had warned of them.
pub gc_candidates-warn_retention :
    (at : ℕ) (rows : List Workspace)
    → (gc_candidates at (warn_retention at rows)).expired_workspaces
      ≡ map (λ r. r.id) (filter (is_over at) rows)
unfolding gc_candidates warn_retention
gc_candidates-warn_retention at rows =
    map-filter-map (warn_row at) (λ r. r.id) (is_over at) (is_expired at) rows
      (is_expired-warn_row at) (warn_row-id at)
