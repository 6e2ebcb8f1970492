-- ===== src/Examples/Storage.antt =====
-- The key-value table, the lock and the rate limit at concrete rows.
use zedspaces.Base.{
  ◌+◌, ◌*◌, true, false, not, Text, text_eq, text_eq_iff, none, some, List, [], ◌∷◌, ◌≡◌, ◌≢◌, ◌≤◌,
  ◌<◌, refl, arith, is_some, filter, length, if◌then◌else◌, Option,
}
use zedspaces.Schema.{KvEntry}
use zedspaces.Kv.{get, set, sweep_expired, unexpired, deadline}
use zedspaces.Kv.Laws.{get-set, set-nx_iff, get-sweep_expired, DistinctKeys}
use zedspaces.Kv.Lock.{take_lock, release_lock, attempts, Leased, attempts-Leased}
use zedspaces.RateLimit.{
  Counter, limit, limited, allowed, recent_hits, read_hits, limits, user_export, run, window_ms,
}
use zedspaces.RateLimit.Retry.{limit-retry}
use zedspaces.RateLimit.Window.{IsAscending, is_within, run-le_tokens}

abbrev lock : Text
lock = 107 ∷ []

abbrev other : Text
other = 111 ∷ []

abbrev mine : Text
mine = 1 ∷ []

abbrev theirs : Text
theirs = 2 ∷ []

abbrev rows : List KvEntry
rows =
    record { key = lock; value = 1 ∷ []; expires_at = some 100 }
    ∷ record { key = other; value = 3 ∷ []; expires_at = none }
    ∷ []

get-set_example :
    ((set lock theirs (some 50) false 7 rows).1 ≡ true)
    × (get lock 20 (set lock theirs (some 50) false 7 rows).0 ≡ (
        if text_eq lock lock
        then if unexpired 20 (deadline 7 (some 50)) then some theirs else none
        else get lock 20 rows))
get-set_example = get-set lock lock theirs (some 50) 7 20 rows

set-nx_iff_example :
    ((set lock theirs (some 50) true 7 rows).1 ≡ not (is_some (get lock 7 rows)))
    × ((set lock theirs (some 50) true 7 rows).0
        ≡ (if is_some (get lock 7 rows) then rows else (set lock theirs (some 50) false 7 rows).0))
set-nx_iff_example = set-nx_iff lock theirs (some 50) 7 rows

differ : theirs ≢ mine
unfolding text_eq
differ e = clash ((text_eq_iff theirs mine).1 e)
  where
    clash : false ≡ true → ⊥
    clash q = cc

held : get lock 7 rows ≡ some mine
unfolding get text_eq
held = refl

rows-DistinctKeys : DistinctKeys rows
unfolding text_eq
rows-DistinctKeys = ((refl, tt), (tt, tt))

hundred_le : 100 ≤ 200
hundred_le = omega arith

get-sweep_expired_example : get lock 200 (sweep_expired 100 rows) ≡ get lock 200 rows
get-sweep_expired_example = get-sweep_expired lock 100 200 rows rows-DistinctKeys hundred_le

rows-Leased : Leased lock mine 100 rows
unfolding get text_eq
rows-Leased u h = ground (arith, h)

five_lt : 5 < 100
five_lt = omega arith

attempts-Leased_example :
    Leased lock mine 100
      (attempts lock ((5, take_lock theirs 10) ∷ (5, release_lock theirs) ∷ []) rows)
attempts-Leased_example =
    attempts-Leased lock mine 100 ((5, take_lock theirs 10) ∷ (5, release_lock theirs) ∷ []) rows
      ((five_lt, differ), ((five_lt, differ), tt)) rows-Leased

in_order : IsAscending 0 (10 ∷ 20 ∷ 30 ∷ 40 ∷ [])
in_order = ground arith

run-le_tokens_example :
    length (
      filter
        (is_within (window_ms (limits user_export)) 5)
        (run (limits user_export) [] none (10 ∷ 20 ∷ 30 ∷ 40 ∷ [])))
    ≤ (limits user_export).tokens
run-le_tokens_example = run-le_tokens (limits user_export) (10 ∷ 20 ∷ 30 ∷ 40 ∷ []) 5 in_order

abbrev exhausted : Option Counter
exhausted = some (record { hits = 10 ∷ 20 ∷ 30 ∷ []; expires_at = 60030 })

at_least_one : 1 ≤ (limits user_export).tokens
unfolding limits
at_least_one = omega arith

three_hits :
    length (recent_hits (window_ms (limits user_export)) exhausted 40) ≤ (limits user_export).tokens
unfolding limits recent_hits read_hits
three_hits = omega arith

refused : (limit (limits user_export) exhausted 40).1 ≡ limited 60
unfolding limit limits recent_hits read_hits
refused = refl

waited : 40 + 60 * 1000 ≤ 60040
waited = omega arith

limit-retry_example : (limit (limits user_export) exhausted 60040).1 ≡ allowed
limit-retry_example =
    limit-retry (limits user_export) exhausted 40 60040 60 at_least_one three_hits refused waited
