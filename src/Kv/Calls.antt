-- ===== src/Kv/Calls.antt =====
-- The operations of `SqlKv` (apps/web/lib/kv.ts) as effects: each runs at the time of its call.
use zedspaces.Base.{ℕ, Text, Option, false}
use zedspaces.Effects.{Platform, M, ◌>>=◌, pure, now, get_db, modify_db}
use zedspaces.Kv.{get, set, del, incr_by}

module _ {p : Platform} where
  unfoldable pub kv_get : Text → M p (Option Text)
  kv_get key = do t ← now; db ← get_db; pure (get key t db.kv)

  unfoldable pub kv_set : Text → Text → Option ℕ → M p (Unit {0})
  kv_set key value ex_ms = do
    t ← now
    modify_db (λ db. record db { kv = (set key value ex_ms false t db.kv).0 })

  unfoldable pub kv_del : Text → M p (Unit {0})
  kv_del key = modify_db (λ db. record db { kv = del key db.kv })

  unfoldable pub kv_incr : Text → Option ℕ → M p (Unit {0})
  kv_incr key ex_ms = do
    t ← now
    modify_db (λ db. record db { kv = (incr_by key 1 ex_ms t db.kv).0 })
