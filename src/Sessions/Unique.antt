-- ===== src/Sessions/Unique.antt =====
-- A tab has one open session of a workspace.
use zedspaces.Base.{
  ℕ, ◌+◌, ◌≤◌, Bool, true, false, Text, lit, text_eq, text_eq_refl, Option, none, some, List, [],
  ◌∷◌, ◌≡◌, refl, arith, Bool-cases, inl, inr, if◌then◌else◌, ◌==◌, subst_some,
}
use zedspaces.Schema.{Workspace, Session}
use zedspaces.Sessions.{
  SessionInput, is_open, holds, find_open, refresh, end_session, insert_session, update_session,
  arbitrate_session, open_arbitrated,
}

-- How many open sessions of the workspace the tab has.
unfoldable pub open_count : Workspace → SessionInput → List Session → ℕ
open_count ws input [] = 0
open_count ws input (s ∷ ss) =
    let rest = open_count ws input ss in if holds ws input s then rest + 1 else rest

module _ (ws : Workspace) (input : SessionInput) where
  count-none : (ss : List Session) → find_open ws input ss ≡ none → open_count ws input ss ≡ 0
  unfolding open_count find_open
  count-none [] e = refl
  count-none (s ∷ ss) e = elim (Bool-cases (holds ws input s)) [
    | inl hit ↦ absurd (clash (rw hit at e))
    | inr miss ↦ rw miss (count-none ss (rw miss at e))
  ]
    where
      clash : some s ≡ none → ⊥
      clash q = cc

  holds-refresh : (s : Session) → holds ws input (refresh ws input s) ≡ holds ws input s
  unfolding holds refresh
  holds-refresh s = refl

  holds-end :
      (t : ℕ) (reason : Text) (s : Session) → holds ws input (end_session t reason s) ≡ false
  unfolding holds end_session is_open
  holds-end t reason s = ground arith

  holds-insert : (id : Text) (t : ℕ) → holds ws input (insert_session ws input id t) ≡ true
  unfolding holds insert_session is_open
  holds-insert id t = rw (text_eq_refl ws.id, text_eq_refl input.tab_id) refl

  count-refresh :
      (id : Text) (ss : List Session)
      → open_count ws input (update_session id (refresh ws input) ss) ≡ open_count ws input ss
  unfolding open_count update_session
  count-refresh id [] = refl
  count-refresh id (s ∷ ss) = elim (Bool-cases (text_eq s.id id)) [
    | inl hit ↦ rw (hit, holds-refresh s, count-refresh id ss) refl
    | inr miss ↦ rw (miss, count-refresh id ss) refl
  ]

  count-end-le :
      (id : Text) (t : ℕ) (reason : Text) (ss : List Session)
      → open_count ws input (update_session id (end_session t reason) ss) ≤ open_count ws input ss
  unfolding open_count update_session
  count-end-le id t reason [] = omega arith
  count-end-le id t reason (s ∷ ss) = elim (Bool-cases (text_eq s.id id)) [
    | inl hit ↦ rw (hit, holds-end t reason s) (ground (arith, count-end-le id t reason ss))
    | inr miss ↦ rw miss (ground (arith, count-end-le id t reason ss))
  ]

  count-end :
      (s : Session) (t : ℕ) (reason : Text) (ss : List Session)
      → find_open ws input ss ≡ some s
      → open_count ws input (update_session s.id (end_session t reason) ss) + 1
        ≤ open_count ws input ss
  unfolding open_count update_session find_open
  count-end s t reason [] e = cc
  count-end s t reason (x ∷ xs) e = elim (Bool-cases (holds ws input x)) [
    | inl hit ↦
        rw (same_id (rw hit at e), holds-end t reason x, hit)
          (ground (arith, count-end-le s.id t reason xs))
    | inr miss ↦ elim (Bool-cases (text_eq x.id s.id)) [
      | inl same ↦ rw (same, holds-end t reason x, miss) (count-end s t reason xs (rw miss at e))
      | inr other ↦ rw (other, miss) (count-end s t reason xs (rw miss at e))
    ]
  ]
    where
      same_id : some x ≡ some s → text_eq x.id s.id ≡ true
      same_id q = subst_some (λ y. text_eq x.id y.id ≡ true) x s q (text_eq_refl x.id)

  count-find :
      (s : Session) (ss : List Session)
      → find_open ws input ss ≡ some s
      → 1 ≤ open_count ws input ss
  unfolding open_count find_open
  count-find s [] e = cc
  count-find s (x ∷ xs) e = elim (Bool-cases (holds ws input x)) [
    | inl hit ↦ rw hit (omega arith)
    | inr miss ↦ rw miss (count-find s xs (rw miss at e))
  ]

  -- If the tab has at most one open session of the workspace, then it has exactly one after the
  -- arbitration of a connection.
  pub arbitrate_session-count :
      (id : Text) (t : ℕ) (ss : List Session)
      → open_count ws input ss ≤ 1
      → open_count ws input (arbitrate_session ws input id t ss).0 ≡ 1
  unfolding arbitrate_session open_arbitrated
  arbitrate_session-count id t ss le = found (find_open ws input ss) refl
    where
      fresh : Session
      fresh = insert_session ws input id t

      opened :
          (xs : List Session) → open_count ws input xs ≡ 0 → open_count ws input (fresh ∷ xs) ≡ 1
      opened xs zero_open = unfold open_count in rw (holds-insert id t) (omega (arith, zero_open))

      replaced :
          (s : Session)
          → find_open ws input ss ≡ some s
          → open_count ws input
              (fresh ∷ update_session s.id (end_session t (lit "generation_changed")) ss)
            ≡ 1
      replaced s e =
          opened (update_session s.id (end_session t (lit "generation_changed")) ss)
            (omega (arith, count-end s t (lit "generation_changed") ss e, le))

      kept :
          (s : Session)
          → find_open ws input ss ≡ some s
          → open_count ws input (update_session s.id (refresh ws input) ss) ≡ 1
      kept s e = omega (arith, count-refresh s.id ss, count-find s ss e, le)

      outcome : Session → Bool → List Session × Session
      outcome s b =
          if b
          then (update_session s.id (refresh ws input) ss, refresh ws input s)
          else (fresh ∷ update_session s.id (end_session t (lit "generation_changed")) ss, fresh)

      branch :
          (s : Session)
          → find_open ws input ss ≡ some s
          → (b : Bool) → open_count ws input (outcome s b).0 ≡ 1
      branch s e true = kept s e
      branch s e false = replaced s e

      found :
          (o : Option Session)
          → find_open ws input ss ≡ o
          → open_count ws input (open_arbitrated ws input id t ss o).0 ≡ 1
      found none e = opened ss (count-none ss e)
      found (some s) e = branch s e (s.sandbox_generation == ws.sandbox_generation)
