-- ===== src/Effects/Monad.antt =====
-- State passing with exceptions: `await` is `>>=`, `throw` is `throw`, `try … catch` is `catch`.
use zedspaces.Base.{ℕ, Bool, true, false, Text, Option, none, some, List, ◌∷◌}
use zedspaces.Schema.{
  Workspace, Session, Forward, KvEntry, User, SettingsDoc, AuditEntry, AuthSession,
  AuthVerification,
}
use zedspaces.Effects.Errors.{Error, Res, ok, err, hung}
use zedspaces.Effects.Api.{Platform, Op}

pub record Db : Type 0 where
  pub workspaces : List Workspace
  pub sessions : List Session
  pub forwards : List Forward
  pub kv : List KvEntry
  pub users : List User
  pub settings_docs : List SettingsDoc
  pub audit_log : List AuditEntry
  pub auth_sessions : List AuthSession
  pub auth_verifications : List AuthVerification

-- What the run has asked the platform to destroy, newest first.
pub data Removal : Type 0 where
  sandbox : Text → Removal
  blob : Text → Removal

pub record World (p : Platform) : Type 0 where
  pub db : Db
  pub cloud : p.State
  pub removed : List Removal

abbrev pub M : Platform → Type 0 → Type 0
M p A = World p → World p × Res A

module _ {p : Platform} where
  abbrev pub next : {A B : Type 0} → World p × Res A → (A → M p B) → World p × Res B
  next (w, ok a) f = f a w
  next (w, err e) f = (w, err e)
  next (w, hung) f = (w, hung)

  infixl 5 ◌>>=◌ ◌>>◌
  abbrev pub ◌>>=◌ : {A B : Type 0} → M p A → (A → M p B) → M p B
  ◌>>=◌ m f w = next (m w) f

  abbrev pub ◌>>◌ : {B : Type 0} → M p (Unit {0}) → M p B → M p B
  ◌>>◌ m k w = next (m w) (λ _. k)

  abbrev pub pure : {A : Type 0} → A → M p A
  pure a w = (w, ok a)

  abbrev pub throw : {A : Type 0} → Error → M p A
  throw e w = (w, err e)

  -- The run does not end.
  abbrev pub hang : {A : Type 0} → M p A
  hang w = (w, hung)

  abbrev pub caught : {A : Type 0} → World p × Res A → (Error → M p A) → World p × Res A
  caught (w, ok a) h = (w, ok a)
  caught (w, err e) h = h e w
  caught (w, hung) h = (w, hung)

  abbrev pub catch : {A : Type 0} → M p A → (Error → M p A) → M p A
  catch m h w = caught (m w) h

  abbrev pub when : Bool → M p (Unit {0}) → M p (Unit {0})
  when true m = m
  when false m = pure tt

  -- A call of the platform.
  abbrev pub lifted : {A : Type 0} → World p → p.State × Res A → World p × Res A
  lifted w (c, r) = (record w { cloud = c }, r)

  unfoldable pub call : {A : Type 0} → Op p.State A → M p A
  call op w = lifted w (op w.cloud)

  unfoldable pub now : M p ℕ
  now w = (w, ok (p.clock w.cloud))

  unfoldable pub pause : ℕ → M p (Unit {0})
  pause ms w = (record w { cloud = p.sleep ms w.cloud }, ok tt)

  unfoldable pub get_db : M p Db
  get_db w = (w, ok w.db)

  -- One statement or transaction that changes tables.
  unfoldable pub modify_db : (Db → Db) → M p (Unit {0})
  modify_db f w = (record w { db = f w.db }, ok tt)

  unfoldable pub note_removal : Removal → M p (Unit {0})
  note_removal r w = (record w { removed = r ∷ w.removed }, ok tt)

  unfoldable pub some_or : {A : Type 0} → Option A → Error → M p A
  some_or (some a) e = pure a
  some_or none e = throw e
