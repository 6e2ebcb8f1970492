-- ===== src/Kv/Lock.antt =====
-- `withLock` of apps/web/lib/kv.ts: a lock is a row whose value is the holder's random token and
-- whose expiry ends the holder's lease.
use zedspaces.Base.{
  ℕ, ◌<◌, Bool, true, Text, Option, none, some, List, [], ◌∷◌, ◌≡◌, ◌≢◌, arith, if◌then◌else◌, All,
}
use zedspaces.Schema.{KvEntry}
use zedspaces.Effects.{
  Platform, World, M, next, ◌>>=◌, ◌>>◌, pure, call, now, modify_db, get_db, Res, ok, err, hung,
}
use zedspaces.Kv.{get, set, compare_delete}
use zedspaces.Kv.Laws.{set-nx_iff, get-compare_delete_other}

module _ {p : Platform} where
  abbrev finished : {A : Type 0} → World p × Res A → M p (Unit {0}) → World p × Res A
  finished (w, ok a) k = next (k w) (λ _. pure a)
  finished (w, err e) k = next (k w) (λ _ w'. (w', err e))
  finished (w, hung) k = (w, hung)

  -- `try { return await m } finally { await k }`
  unfoldable pub finally : {A : Type 0} → M p A → M p (Unit {0}) → M p A
  finally m k w = finished (m w) k

  -- `set(key, token, { nx: true, exMs: ttlMs })`
  unfoldable pub acquire : Text → Text → ℕ → M p Bool
  acquire key token ttl_ms = do
    t ← now
    db ← get_db
    let (kv, won) = set key token (some ttl_ms) true t db.kv
    modify_db (λ d. record d { kv = kv })
    pure won

  unfoldable pub release : Text → Text → M p (Unit {0})
  release key token = modify_db (λ d. record d { kv = compare_delete key token d.kv })

  unfoldable pub with_lock : {A : Type 0} → Text → ℕ → M p A → M p (Option A)
  unfolding finally acquire release
  with_lock key ttl_ms fn = do
    token ← call p.random
    acquired ← acquire key token ttl_ms
    if acquired then finally (do a ← fn; pure (some a)) (release key token) else pure none

-- What other processes do to the lock's row: try to take it, or release what they took.
pub data Attempt : Type 0 where
  take_lock : (token : Text) (ttl_ms : ℕ) → Attempt
  release_lock : (token : Text) → Attempt

abbrev token_of : Attempt → Text
token_of (take_lock token ttl_ms) = token
token_of (release_lock token) = token

unfoldable pub attempt : Text → ℕ → Attempt → List KvEntry → List KvEntry
attempt key t (take_lock token ttl_ms) es = (set key token (some ttl_ms) true t es).0
attempt key t (release_lock token) es = compare_delete key token es

unfoldable pub attempts : Text → List (ℕ × Attempt) → List KvEntry → List KvEntry
unfolding attempt
attempts key [] es = es
attempts key ((t, a) ∷ rest) es = attempts key rest (attempt key t a es)

-- The lease of `holder` on the lock runs to `end`.
abbrev pub Leased : Text → Text → ℕ → List KvEntry → Type 0
Leased key holder end es = (u : ℕ) → u < end → get key u es ≡ some holder

-- An attempt by another process during the lease.
abbrev pub IsForeign : Text → ℕ → ℕ × Attempt → Type 0
IsForeign holder end (t, a) = (t < end) × (token_of a ≢ holder)

attempt-Leased :
    (key holder : Text) (end t : ℕ) (a : Attempt) (es : List KvEntry)
    → t < end
    → token_of a ≢ holder
    → Leased key holder end es
    → Leased key holder end (attempt key t a es)
unfolding attempt
attempt-Leased key holder end t (take_lock token ttl_ms) es before apart h u hu =
    ground (arith, set-nx_iff key token (some ttl_ms) t es, h t before, h u hu)
attempt-Leased key holder end t (release_lock token) es before apart h u hu =
    get-compare_delete_other key token holder u es apart (h u hu)

-- While a lease runs, no sequence of attempts to take the lock and of releases by tokens other
-- than the holder's, all made before the lease ends, takes the lock from its holder.
pub attempts-Leased :
    (key holder : Text) (end : ℕ) (ops : List (ℕ × Attempt)) (es : List KvEntry)
    → All (IsForeign holder end) ops
    → Leased key holder end es
    → Leased key holder end (attempts key ops es)
unfolding attempts
attempts-Leased key holder end [] es f h = h
attempts-Leased key holder end ((t, a) ∷ rest) es (fa, f) h =
    attempts-Leased key holder end rest (attempt key t a es) f
      (attempt-Leased key holder end t a es fa.0 fa.1 h)
