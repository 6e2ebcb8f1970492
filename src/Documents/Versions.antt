-- ===== src/Documents/Versions.antt =====
-- What a write of a document leaves to be read, and that a stale write is refused.
use zedspaces.Base.{
  ℕ, ◌+◌, ◌≡◌, refl, ap, ◌∙◌, Bool, true, false, not, ◌&&◌, inl, inr, Text, text_eq, text_eq_iff,
  text_eq_refl, Option, some, List, [], ◌∷◌, if◌then◌else◌, Bool-cases, arith, lit, ltb,
}
use zedspaces.Schema.{SettingsDoc, SettingsKind, settings, keymap, dotfiles}
use zedspaces.Effects.{Platform, World, ok, err, api_error, now, modify_db, get_db}
use zedspaces.Jsonc.{is_jsonc}
use zedspaces.Documents.{
  DocView, kind_eq, is_doc, find_doc, view_of, put_doc, read_doc, write_doc, write_version,
  is_expected, max_doc_bytes, byte_length, is_dotfiles,
}

kind_eq_iff : (a b : SettingsKind) → (kind_eq a b ≡ true → a ≡ b) × (kind_eq a a ≡ true)
unfolding kind_eq
kind_eq_iff settings settings = (λ h. refl, refl)
kind_eq_iff settings keymap = (λ h. absurd (cc), refl)
kind_eq_iff settings dotfiles = (λ h. absurd (cc), refl)
kind_eq_iff keymap settings = (λ h. absurd (cc), refl)
kind_eq_iff keymap keymap = (λ h. refl, refl)
kind_eq_iff keymap dotfiles = (λ h. absurd (cc), refl)
kind_eq_iff dotfiles settings = (λ h. absurd (cc), refl)
kind_eq_iff dotfiles keymap = (λ h. absurd (cc), refl)
kind_eq_iff dotfiles dotfiles = (λ h. refl, refl)

-- A row of a document has none of the other keys.
keys_apart :
    (user user' : Text) (kind kind' : SettingsKind) (u : Text) (k : SettingsKind)
    → text_eq u user && kind_eq k kind ≡ true
    → text_eq user user' && kind_eq kind kind' ≡ false
    → text_eq u user' && kind_eq k kind' ≡ false
keys_apart user user' kind kind' u k hit apart =
    ap (λ x. text_eq x user' && kind_eq k kind') ((text_eq_iff u user).0 (ground (arith, hit)))
    ∙ ap (λ x. text_eq user user' && kind_eq x kind') ((kind_eq_iff k kind).0 (ground (arith, hit)))
    ∙ apart

module _ (user : Text) (kind : SettingsKind) (content : Text) (version t : ℕ) where
  view-put_doc :
      (ds : List SettingsDoc)
      → view_of kind (find_doc user kind (put_doc user kind content version t ds))
        ≡ record { content = content; version = version }
  unfolding view_of find_doc put_doc is_doc
  view-put_doc [] = rw (text_eq_refl user, (kind_eq_iff kind kind).1) refl
  view-put_doc (d ∷ ds) = elim (Bool-cases (text_eq d.user_id user && kind_eq d.kind kind)) [
    | inl hit ↦ rw (hit, hit) refl
    | inr miss ↦ rw (miss, miss) (view-put_doc ds)
  ]

  -- A document of another user or kind.
  find-put_doc :
      (user' : Text) (kind' : SettingsKind) (ds : List SettingsDoc)
      → text_eq user user' && kind_eq kind kind' ≡ false
      → find_doc user' kind' (put_doc user kind content version t ds) ≡ find_doc user' kind' ds
  unfolding find_doc put_doc is_doc
  find-put_doc user' kind' [] apart = rw apart refl
  find-put_doc user' kind' (d ∷ ds) apart =
      elim (Bool-cases (text_eq d.user_id user && kind_eq d.kind kind)) [
        | inl hit ↦ rw (hit, apart_from d hit) refl
        | inr miss ↦ rw miss (
            ap (λ o. if text_eq d.user_id user' && kind_eq d.kind kind' then some d else o)
              (find-put_doc user' kind' ds apart))
      ]
    where
      apart_from :
          (d : SettingsDoc)
          → text_eq d.user_id user && kind_eq d.kind kind ≡ true
          → text_eq d.user_id user' && kind_eq d.kind kind' ≡ false
      apart_from d hit = keys_apart user user' kind kind' d.user_id d.kind hit apart

-- A document of an accepted size and syntax.
abbrev pub IsAcceptable : (Text → Bool) → SettingsKind → Text → Type 0
IsAcceptable parses kind content =
    (ltb max_doc_bytes (byte_length false content) ≡ false)
    × (not (is_dotfiles kind) && not (is_jsonc parses content) ≡ false)

module _ {p : Platform} (parses : Text → Bool) (user : Text) (kind : SettingsKind) where
  abbrev pub current : World p → DocView
  current w = view_of kind (find_doc user kind w.db.settings_docs)

  -- The tables after an accepted write.
  abbrev pub written : Text → World p → World p
  written content w = record w {
    db = record w.db {
      settings_docs =
          put_doc user kind content ((current w).version + 1) (p.clock w.cloud) w.db.settings_docs;
    };
  }

  write_doc-accepted :
      (content : Text) (expected : Option ℕ) (w : World p)
      → IsAcceptable parses kind content
      → is_expected expected (current w).version ≡ true
      → write_doc parses user kind content expected w
        ≡ (written content w, ok (record { content = content; version = (current w).version + 1 }))
  unfolding write_doc write_version read_doc modify_db now get_db
  write_doc-accepted content expected w (small, valid) fresh = rw (small, valid, fresh) refl

  write_doc-refused :
      (content : Text) (expected : Option ℕ) (w : World p)
      → IsAcceptable parses kind content
      → is_expected expected (current w).version ≡ false
      → write_doc parses user kind content expected w
        ≡ (w, err (api_error 409 (lit "version_conflict")))
  unfolding write_doc write_version read_doc get_db
  write_doc-refused content expected w (small, valid) stale = rw (small, valid, stale) refl

  current-written :
      (content : Text) (w : World p)
      → current (written content w)
        ≡ record { content = content; version = (current w).version + 1 }
  current-written content w = view-put_doc user kind content _ _ w.db.settings_docs

  read_doc-written :
      (content : Text) (w : World p)
      → read_doc parses user kind (written content w)
        ≡ (written content w, ok (record { content = content; version = (current w).version + 1 }))
  unfolding read_doc get_db
  read_doc-written content w = rw (current-written content w) refl

  -- An acceptable write of a document, unconditional or quoting the stored version, succeeds and
  -- answers the written content with a version; reading the document then gives exactly that
  -- answer, and the document of any other user or kind is the row it was.
  pub read_doc-write_doc :
      (content : Text) (expected : Option ℕ) (w : World p) (user' : Text) (kind' : SettingsKind)
      → IsAcceptable parses kind content
      → is_expected expected (current w).version ≡ true
      → text_eq user user' && kind_eq kind kind' ≡ false
      → (w' : World p) × (v : DocView) × (write_doc parses user kind content expected w
          ≡ (w', ok v))
        × (read_doc parses user kind w' ≡ (w', ok v))
        × (v.content ≡ content)
        × (find_doc user' kind' w'.db.settings_docs ≡ find_doc user' kind' w.db.settings_docs)
  read_doc-write_doc content expected w user' kind' acceptable fresh apart = (
    written content w,
    record { content = content; version = (current w).version + 1 },
    write_doc-accepted content expected w acceptable fresh,
    read_doc-written content w,
    refl,
    find-put_doc user kind content _ _ user' kind' w.db.settings_docs apart,
  )

  -- Of two acceptable writes of a document that quote the same version, the one that comes first
  -- while that is the stored version succeeds, and the second is refused with the conflict and
  -- changes nothing.
  pub write_doc-Stale :
      (mine theirs : Text) (w : World p)
      → IsAcceptable parses kind mine
      → IsAcceptable parses kind theirs
      → (w' : World p) × (v : DocView) × (write_doc parses user kind mine
            (some (current w).version)
            w
          ≡ (w', ok v))
        × (write_doc parses user kind theirs (some (current w).version) w'
            ≡ (w', err (api_error 409 (lit "version_conflict"))))
  write_doc-Stale mine theirs w my_doc their_doc = (
    written mine w,
    record { content = mine; version = (current w).version + 1 },
    write_doc-accepted mine (some (current w).version) w my_doc (ground (arith)),
    write_doc-refused theirs (some (current w).version) (written mine w) their_doc
        (rw (current-written mine w) (ground arith)),
  )
