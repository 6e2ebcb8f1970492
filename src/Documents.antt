-- ===== src/Documents.antt =====
-- apps/web/lib/settings-docs.ts: a user's settings, keymap and dotfiles, with a version that a
-- conditional write must quote.
pub mod Versions
use zedspaces.Base.{
  ℕ, suc, ◌+◌, ◌*◌, Bool, true, false, not, ◌&&◌, Text, text_eq, lit, Option, none, some, List, [],
  ◌∷◌, ◌++◌, ltb, leb, ◌==◌, if◌then◌else◌,
}
use zedspaces.Schema.{SettingsDoc, SettingsKind, settings, keymap, dotfiles}
use zedspaces.Effects.{Platform, M, ◌>>=◌, ◌>>◌, pure, throw, now, get_db, modify_db, api_error}
use zedspaces.Jsonc.{is_jsonc}

abbrev pub max_doc_bytes : ℕ
max_doc_bytes = 512 * 1024

-- `SettingsDocView`
pub record DocView : Type 0 where
  pub content : Text
  pub version : ℕ

-- `defaultFor`
unfoldable pub default_for : SettingsKind → Text
default_for settings = 123 ∷ 10 ∷ 125 ∷ 10 ∷ []
default_for keymap = 91 ∷ 10 ∷ 93 ∷ 10 ∷ []
default_for dotfiles = lit "{\"repoUrl\":null,\"installCommand\":null}"

unfoldable pub kind_eq : SettingsKind → SettingsKind → Bool
kind_eq settings settings = true
kind_eq keymap keymap = true
kind_eq dotfiles dotfiles = true
kind_eq _ _ = false

-- The bytes of the UTF-8 encoding (`Buffer.byteLength`): a pair of surrogates takes four, a lone
-- one is replaced by a character of three. The flag says that the unit before opened a pair.
unfoldable pub byte_length : Bool → Text → ℕ
byte_length paired [] = 0
byte_length paired (c ∷ s) =
    let rest = byte_length (leb 55296 c && ltb c 56320) s in
    if ltb c 128
    then rest + 1
    else if ltb c 2048
    then rest + 2
    else if paired && leb 56320 c && ltb c 57344
    then rest + 1
    else rest + 3

unfoldable pub is_doc : Text → SettingsKind → SettingsDoc → Bool
unfolding kind_eq
is_doc user kind d = text_eq d.user_id user && kind_eq d.kind kind

unfoldable pub find_doc : Text → SettingsKind → List SettingsDoc → Option SettingsDoc
unfolding is_doc
find_doc user kind [] = none
find_doc user kind (d ∷ ds) = if is_doc user kind d then some d else find_doc user kind ds

unfoldable pub view_of : SettingsKind → Option SettingsDoc → DocView
unfolding default_for
view_of kind none = record { content = default_for kind; version = 0 }
view_of kind (some d) = record { content = d.content; version = d.version }

-- `INSERT … ON CONFLICT (user_id, kind) DO UPDATE`; the default of `updated_at` is the time too.
unfoldable pub put_doc : Text → SettingsKind → Text → ℕ → ℕ → List SettingsDoc → List SettingsDoc
unfolding is_doc
put_doc user kind content version t [] =
    record { user_id = user; kind = kind; content = content; version = version; updated_at = t }
    ∷ []
put_doc user kind content version t (d ∷ ds) =
    if is_doc user kind d
    then record d { content = content; version = version; updated_at = t } ∷ ds
    else d ∷ put_doc user kind content version t ds

abbrev pub is_expected : Option ℕ → ℕ → Bool
is_expected none version = true
is_expected (some expected) version = expected == version

abbrev pub is_dotfiles : SettingsKind → Bool
is_dotfiles dotfiles = true
is_dotfiles _ = false

-- `parses`: `JSON.parse` does not throw.
module _ {p : Platform} (parses : Text → Bool) where
  unfoldable pub read_doc : Text → SettingsKind → M p DocView
  unfolding find_doc view_of
  read_doc user kind = do db ← get_db; pure (view_of kind (find_doc user kind db.settings_docs))

  -- The transaction of `writeDoc`.
  unfoldable pub write_version : Text → SettingsKind → Text → Option ℕ → DocView → M p DocView
  unfolding put_doc
  write_version user kind content expected current =
      if is_expected expected current.version
      then (do
        t ← now
        modify_db (λ db. record db {
          settings_docs = put_doc user kind content (current.version + 1) t db.settings_docs;
        })
        pure (record { content = content; version = current.version + 1 }))
      else throw (api_error 409 (lit "version_conflict"))

  unfoldable pub write_doc : Text → SettingsKind → Text → Option ℕ → M p DocView
  unfolding byte_length write_version read_doc
  write_doc user kind content expected =
      if ltb max_doc_bytes (byte_length false content)
      then throw (api_error 413 (lit "payload_too_large"))
      else if not (is_dotfiles kind) && not (is_jsonc parses content)
      then throw (api_error 400 (lit "invalid_body"))
      else (do current ← read_doc user kind; write_version user kind content expected current)
