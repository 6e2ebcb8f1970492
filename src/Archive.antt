-- ===== src/Archive.antt =====
-- apps/web/lib/archive.ts: the name of a rebuild's archive in the blob store.
pub mod Naming
use zedspaces.Base.{
  ℕ, zero, suc, ◌&&◌, ◌||◌, Bool, Text, lit, text_eq, ◌++◌, Option, none, some, [], ◌∷◌, leb, ◌==◌,
  decimal, if◌then◌else◌,
}

-- `blobPathnameFor`: a missing or empty digest is not written.
unfoldable pub blob_pathname_for : Text → ℕ → Option Text → Text
blob_pathname_for id at none = lit "rebuild/" ++ id ++ lit "/" ++ decimal at ++ lit ".tgz"
blob_pathname_for id at (some []) = lit "rebuild/" ++ id ++ lit "/" ++ decimal at ++ lit ".tgz"
blob_pathname_for id at (some (c ∷ sha)) =
    lit "rebuild/" ++ id ++ lit "/" ++ decimal at ++ lit "-" ++ (c ∷ sha) ++ lit ".tgz"

abbrev pub is_hex : ℕ → Bool
is_hex c = (leb 48 c && leb c 57) || (leb 97 c && leb c 102)

abbrev pub after_hex : ℕ → Option (Text × Text) → Option (Text × Text)
after_hex c none = none
after_hex c (some (d, t)) = some (c ∷ d, t)

-- `[0-9a-f]{n}` at the start of a text, with what follows it.
unfoldable pub hex_run : ℕ → Text → Option (Text × Text)
hex_run zero s = some ([], s)
hex_run (suc n) [] = none
hex_run (suc n) (c ∷ s) = let rest = hex_run n s in if is_hex c then after_hex c rest else none

-- `\.tgz$` after the digits.
abbrev pub before_ending : Option (Text × Text) → Option Text
before_ending none = none
before_ending (some (d, t)) = if text_eq t (lit ".tgz") then some d else none

-- `-([0-9a-f]{64})\.tgz$` at the start of a text.
unfoldable pub digest_here : Text → Option Text
unfolding hex_run
digest_here [] = none
digest_here (c ∷ s) = if c == 45 then before_ending (hex_run 64 s) else none

-- The first match.
abbrev pub first_of : Option Text → Option Text → Option Text
first_of none later = later
first_of (some d) later = some d

-- `sha256FromBlobPathname`: the first place where the expression matches.
unfoldable pub sha256_from_blob_pathname : Text → Option Text
unfolding digest_here
sha256_from_blob_pathname [] = none
sha256_from_blob_pathname (c ∷ s) =
    let later = sha256_from_blob_pathname s in first_of (digest_here (c ∷ s)) later
