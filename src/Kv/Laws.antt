-- ===== src/Kv/Laws.antt =====
-- What a read sees after each statement of the key-value table.
use zedspaces.Base.{
  ℕ, true, false, not, Text, text_eq, text_eq_iff, Option, none, some, List, [], ◌∷◌, ◌≡◌, refl,
  arith, if◌then◌else◌, is_some, All, ◌≤◌, Bool-cases, ◌≢◌, inl, inr,
}
use zedspaces.Schema.{KvEntry}
use zedspaces.Kv.{unexpired, deadline, get, set, compare_delete, sweep_expired, expired}

-- A write without `nx` always happens, and is read back until its expiry, under its own key only.
pub get-set :
    (key other value : Text) (ex : Option ℕ) (t u : ℕ) (es : List KvEntry)
    → ((set key value ex false t es).1 ≡ true)
      × (get other u (set key value ex false t es).0 ≡ (
          if text_eq key other
          then if unexpired u (deadline t ex) then some value else none
          else get other u es))
unfolding get set
get-set key other value ex t u [] = (refl, ground arith)
get-set key other value ex t u (e ∷ es) = ground (
  arith,
  text_eq_iff e.key key,
  text_eq_iff key other,
  text_eq_iff e.key other,
  get-set key other value ex t u es,
)

-- A write with `nx` succeeds exactly when no live entry holds the key; then it is a plain write,
-- and a refused one changes nothing.
pub set-nx_iff :
    (key value : Text) (ex : Option ℕ) (t : ℕ) (es : List KvEntry)
    → ((set key value ex true t es).1 ≡ not (is_some (get key t es)))
      × ((set key value ex true t es).0
          ≡ (if is_some (get key t es) then es else (set key value ex false t es).0))
unfolding get set
set-nx_iff key value ex t [] = ground arith
set-nx_iff key value ex t (e ∷ es) = ground (arith, set-nx_iff key value ex t es)

-- A release with another value than the one held leaves the key readable.
pub get-compare_delete_other :
    (key value held : Text) (t : ℕ) (es : List KvEntry)
    → value ≢ held
    → get key t es ≡ some held
    → get key t (compare_delete key value es) ≡ some held
unfolding get compare_delete
get-compare_delete_other key value held t [] apart e = cc
get-compare_delete_other key value held t (x ∷ es) apart e =
    ground (arith, text_eq_iff x.value value, get-compare_delete_other key value held t es apart)

get_expired :
    (key : Text) (t u : ℕ) (e : KvEntry)
    → t ≤ u
    → expired t e.expires_at ≡ true
    → unexpired u e.expires_at ≡ false
get_expired key t u e h x = ground arith

-- The rows have distinct keys, as the primary key demands.
abbrev pub KeyFree : Text → List KvEntry → Type 0
KeyFree key es = All (λ e. text_eq e.key key ≡ false) es

abbrev pub DistinctKeys : List KvEntry → Type 0
DistinctKeys [] = Unit
DistinctKeys (e ∷ es) = KeyFree e.key es × DistinctKeys es

get-KeyFree : (key : Text) (t : ℕ) (es : List KvEntry) → KeyFree key es → get key t es ≡ none
unfolding get
get-KeyFree key t [] h = refl
get-KeyFree key t (e ∷ es) h = ground (arith, get-KeyFree key t es)

get-sweep_KeyFree :
    (key : Text) (t u : ℕ) (es : List KvEntry)
    → KeyFree key es
    → get key u (sweep_expired t es) ≡ none
unfolding get sweep_expired
get-sweep_KeyFree key t u [] h = refl
get-sweep_KeyFree key t u (e ∷ es) h = ground (arith, get-sweep_KeyFree key t u es)

-- With distinct keys, reclaiming the rows that have expired at a time is invisible to every read
-- from that time on.
pub get-sweep_expired :
    (key : Text) (t u : ℕ) (es : List KvEntry)
    → DistinctKeys es
    → t ≤ u
    → get key u (sweep_expired t es) ≡ get key u es
unfolding get sweep_expired
get-sweep_expired key t u [] d h = refl
get-sweep_expired key t u (e ∷ es) d h = elim (Bool-cases (text_eq e.key key)) [
  | inl same ↦ ground (
    arith,
    get_expired key t u e h,
    get-sweep_KeyFree key t u es (rw (← (text_eq_iff e.key key).0 same) d.0),
  )
  | inr other ↦ ground (arith, get-sweep_expired key t u es d.1 h)
]
