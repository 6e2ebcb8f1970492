-- ===== src/Kv.antt =====
-- The key-value table of apps/web/lib/kv.ts (`SqlKv`): one function for each statement, over the
-- rows and the time at which the statement runs. The key is the primary key of the table.
pub mod Laws
pub mod Lock
pub mod Calls
use zedspaces.Base.{
  ℕ, ◌+◌, ◌*◌, ◌-◌, Bool, true, false, ◌&&◌, Text, text_eq, decimal, Option, none, some, List, [],
  ◌∷◌, filter, map, not, leb, ltb, if◌then◌else◌,
}
use zedspaces.Schema.{KvEntry}

-- `expires_at IS NULL OR expires_at > now`
abbrev pub unexpired : ℕ → Option ℕ → Bool
unexpired t none = true
unexpired t (some at) = ltb t at

-- `expires_at IS NOT NULL AND expires_at <= now`
abbrev pub expired : ℕ → Option ℕ → Bool
expired t none = false
expired t (some at) = leb at t

-- `exMs !== undefined ? now + exMs : null`
abbrev pub deadline : ℕ → Option ℕ → Option ℕ
deadline t none = none
deadline t (some ms) = some (t + ms)

unfoldable pub get : Text → ℕ → List KvEntry → Option Text
get key t [] = none
get key t (e ∷ es) =
    if text_eq e.key key
    then if unexpired t e.expires_at then some e.value else none
    else get key t es

-- `INSERT … ON CONFLICT DO UPDATE`, with its `WHERE` clause if `nx`: the new rows, and whether a
-- row was written.
unfoldable pub set : Text → Text → Option ℕ → Bool → ℕ → List KvEntry → List KvEntry × Bool
set key value ex nx t [] =
    (record { key = key; value = value; expires_at = deadline t ex } ∷ [], true)
set key value ex nx t (e ∷ es) =
    let (rest, written) = set key value ex nx t es in
    if text_eq e.key key
    then if nx && not (expired t e.expires_at)
      then (e ∷ es, false)
      else (record { key = key; value = value; expires_at = deadline t ex } ∷ es, true)
    else (e ∷ rest, written)

unfoldable pub del : Text → List KvEntry → List KvEntry
del key [] = []
del key (e ∷ es) = if text_eq e.key key then del key es else e ∷ del key es

unfoldable pub compare_delete : Text → Text → List KvEntry → List KvEntry
compare_delete key value [] = []
compare_delete key value (e ∷ es) =
    if text_eq e.key key && text_eq e.value value
    then compare_delete key value es
    else e ∷ compare_delete key value es

-- `CAST(value AS INTEGER)`: the leading digits.
unfoldable pub cast_int : ℕ → Text → ℕ
cast_int acc [] = acc
cast_int acc (c ∷ s) = if leb 48 c && leb c 57 then cast_int (acc * 10 + (c - 48)) s else acc

-- `incrBy`; `incr` is the case `delta = 1`, the only one that the control plane uses.
unfoldable pub incr_by : Text → ℕ → Option ℕ → ℕ → List KvEntry → List KvEntry × ℕ
unfolding cast_int
incr_by key delta ex t [] =
    (record { key = key; value = decimal delta; expires_at = deadline t ex } ∷ [], delta)
incr_by key delta ex t (e ∷ es) =
    let (rest, total) = incr_by key delta ex t es in
    let sum = cast_int 0 e.value + delta in
    if text_eq e.key key
    then if expired t e.expires_at
      then (record { key = key; value = decimal delta; expires_at = deadline t ex } ∷ es, delta)
      else (record { key = key; value = decimal sum; expires_at = e.expires_at } ∷ es, sum)
    else (e ∷ rest, total)

-- Sets or refreshes the expiry of a live key.
unfoldable pub expire : Text → ℕ → ℕ → List KvEntry → List KvEntry
expire key ms t [] = []
expire key ms t (e ∷ es) =
    (if text_eq e.key key && unexpired t e.expires_at
      then record { key = e.key; value = e.value; expires_at = some (t + ms) }
      else e)
    ∷ expire key ms t es

unfoldable pub mget : List Text → ℕ → List KvEntry → List (Option Text)
unfolding get
mget keys t es = map (λ key. get key t es) keys

-- `sweepExpiredKv`
unfoldable pub sweep_expired : ℕ → List KvEntry → List KvEntry
sweep_expired t es = filter (λ e. not (expired t e.expires_at)) es
