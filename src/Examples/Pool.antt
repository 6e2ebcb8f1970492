-- ===== src/Examples/Pool.antt =====
-- Concrete runs of apps/web/lib/concurrency.ts, names of apps/web/lib/archive.ts and ids of
-- apps/web/lib/ids.ts.
use zedspaces.Base.{
  ℕ, zero, suc, ◌≡◌, refl, Text, lit, decimal, some, map, arith, List, true, ◌∷◌, [],
}
use zedspaces.Concurrency.{
  SettledResult, fulfilled, rejected, Run, begin, settle, leave, Reach, start, later, initial,
  begun, saved, left,
}
use zedspaces.Concurrency.Invariant.{downwards}
use zedspaces.Concurrency.Results.{Resolved, returned_array, one_by_one, Resolved-one_by_one}
use zedspaces.Ids.{new_id, ws, is_sandbox_name}
use zedspaces.Ids.Shapes.{is_sandbox_name-new_sandbox_name}
use zedspaces.Schema.{new_sandbox_name}
use zedspaces.Examples.Demo.{demo_env}
use zedspaces.Archive.{blob_pathname_for, sha256_from_blob_pathname}
use zedspaces.Archive.Naming.{sha256_from-blob_pathname_for}

-- The first call is rejected.
abbrev outcomes : ℕ → SettledResult ℕ Text
outcomes zero = rejected (lit "quota")
outcomes (suc i) = fulfilled (suc i)

-- Two workers on two indices: the second call settles before the first.
abbrev both_called : Run ℕ Text
both_called = begun 1 (begun 0 initial)

abbrev second_settled : Run ℕ Text
second_settled = saved 1 1 (outcomes 1) both_called

abbrev all_settled : Run ℕ Text
all_settled = saved 0 0 (outcomes 0) second_settled

abbrev both_left : Run ℕ Text
both_left = left 1 (left 0 all_settled)

out_of_order : Reach 2 2 outcomes both_left
out_of_order =
    later {s = left 0 all_settled}
      (later {s = all_settled}
        (later {s = second_settled}
          (later {s = both_called}
            (later {s = begun 0 initial}
              (later {s = initial} start (begin 0 (omega arith) refl (omega arith)))
              (begin 1 (omega arith) refl (omega arith)))
            (settle 1 1 (omega arith) refl))
          (settle 0 0 (omega arith) refl))
        (leave 0 (omega arith) refl (omega arith)))
      (leave 1 (omega arith) refl (omega arith))

both_left-Resolved : Resolved 2 both_left
both_left-Resolved zero h = refl
both_left-Resolved (suc zero) h = refl
both_left-Resolved (suc (suc w)) h = absurd (omega (arith, h))

Resolved-one_by_one_example :
    (returned_array both_left 0 2 ≡ map some (one_by_one outcomes 0 2))
    × (both_left.calls ≡ downwards 2)
Resolved-one_by_one_example = Resolved-one_by_one out_of_order both_left-Resolved

abbrev digest : Text
digest = lit "0123456789abcdef0123456789abcdef0123456789abcdef0123456789abcdef"

sha256_from-blob_pathname_for_example :
    sha256_from_blob_pathname (blob_pathname_for (lit "ws_1") 7 (some digest)) ≡ some digest
unfolding lit decimal
sha256_from-blob_pathname_for_example =
    sha256_from-blob_pathname_for (lit "ws_1") 7 (some digest) (refl, refl) (omega arith)

-- Twenty bytes.
abbrev bytes : List ℕ
bytes =
    0 ∷ 255 ∷ 31 ∷ 32 ∷ 7 ∷ 8 ∷ 9 ∷ 10 ∷ 11 ∷ 12 ∷ 13 ∷ 14 ∷ 15 ∷ 16 ∷ 17 ∷ 18 ∷ 19 ∷ 20 ∷ 21 ∷ 22
    ∷ []

is_sandbox_name-new_sandbox_name_example :
    is_sandbox_name (new_sandbox_name demo_env (new_id ws bytes) 3) ≡ true
unfolding decimal
is_sandbox_name-new_sandbox_name_example =
    is_sandbox_name-new_sandbox_name demo_env bytes 3 refl (omega arith)
