-- ===== src/Workflows/Child.antt =====
-- apps/web/workflows/child.ts and apps/web/workflows/steps/child-steps.ts: running a workflow as
-- the child of another. The runtime executes the child's body between its start and the parent's
-- first poll; what the parent observes of it is the run store's (`Platform.run_status`).
use zedspaces.Base.{
  ℕ, zero, suc, ◌-◌, Bool, true, false, Text, lit, ◌++◌, Option, none, some, ltb, if◌then◌else◌,
  ◌&&◌,
}
use zedspaces.Effects.{
  Platform, World, M, ◌>>=◌, ◌>>◌, pure, throw, hang, call, now, pause, get_db, modify_db, Res, ok,
  err, hung, Error, fatal, RunStatus, completed, failed, cancelled,
}
use zedspaces.Kv

abbrev pub unknown_ceiling_ms : ℕ
unknown_ceiling_ms = 2700000

abbrev pub child_token_ttl_ms : ℕ
child_token_ttl_ms = 604800000

abbrev pub is_terminal : RunStatus → Bool
is_terminal completed = true
is_terminal failed = true
is_terminal cancelled = true
is_terminal _ = false

abbrev pub is_unknown : RunStatus → Bool
is_unknown RunStatus.unknown = true
is_unknown _ = false

-- What the child's run store keeps of its end.
pub data Settled : Type 0 where
  returned : Settled
  threw : Error → Settled

module _ {p : Platform} where
  unfoldable pub start_unless : Text → Text → Option Text → M p Text
  start_unless name key (some run_id) = pure run_id
  start_unless name key none = do
    run_id ← call (p.start name)
    t ← now
    modify_db (λ d. record d { kv = (Kv.set key run_id (some child_token_ttl_ms) false t d.kv).0 })
    pure run_id

  unfoldable pub step_start_child : Text → Text → M p Text
  unfolding start_unless
  step_start_child token name = do
    t ← now
    db ← get_db
    start_unless name (lit "zs:child:" ++ token) (Kv.get (lit "zs:child:" ++ token) t db.kv)

  unfoldable pub step_child_status : Text → M p RunStatus
  step_child_status run_id w =
      let (c, status) = p.run_status run_id w.cloud in (record w { cloud = c }, ok status)

  -- One round of the loop of `awaitChild`: the parent waits for a terminal status.
  unfoldable pub poll_child : Text → ℕ → M p (Unit {0}) → RunStatus → M p (Unit {0})
  poll_child name started_at again status = do
    t ← now
    if is_terminal status
        then pure tt
        else if is_unknown status && ltb unknown_ceiling_ms (t - started_at)
        then throw (fatal (lit "child_" ++ name ++ lit "_lost"))
        else (do pause 5000; again)

  unfoldable pub await_child : ℕ → Text → Text → ℕ → M p (Unit {0})
  unfolding poll_child
  await_child zero name run_id started_at = hang
  await_child (suc fuel) name run_id started_at =
      let again = await_child fuel name run_id started_at in
      step_child_status run_id >>= λ status. poll_child name started_at again status

  unfoldable pub settled : {A : Type 0} → World p × Res A → World p × Res Settled
  settled (w, ok a) = (w, ok returned)
  settled (w, err e) = (w, ok (threw e))
  settled (w, hung) = (w, hung)

  -- `stepChildResult`
  unfoldable pub child_result : Text → Settled → M p (Unit {0})
  child_result name returned = pure tt
  child_result name (threw e) =
      throw (fatal (lit "child_" ++ name ++ lit "_failed: " ++ p.message e))

  unfoldable pub run_child : ℕ → Text → M p (Unit {0}) → M p (Unit {0})
  unfolding settled child_result
  run_child fuel name body = do
    token ← call p.random
    run_id ← step_start_child token name
    end ← λ w. settled (body w)
    started_at ← now
    await_child fuel name run_id started_at
    child_result name end
