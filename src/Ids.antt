-- ===== src/Ids.antt =====
-- apps/web/lib/ids.ts: the ids that the control plane mints, from random bytes, and their shapes.
pub mod Shapes
use zedspaces.Base.{
  ℕ, zero, suc, ◌%◌, Bool, true, false, ◌&&◌, ◌||◌, Text, lit, ◌++◌, [], ◌∷◌, List, map,
  starts_with, drop, length, every, leb, ◌==◌,
}

pub data IdPrefix : Type 0 where
  ws sb ses con repo : IdPrefix

abbrev pub prefix_text : IdPrefix → Text
prefix_text ws = lit "ws"
prefix_text sb = lit "sb"
prefix_text ses = lit "ses"
prefix_text con = lit "con"
prefix_text repo = lit "repo"

-- `CROCKFORD`
unfoldable pub crockford : Text
crockford = lit "0123456789ABCDEFGHJKMNPQRSTVWXYZ"

abbrev pub char_at : ℕ → Text → ℕ
char_at i [] = 0
char_at zero (c ∷ s) = c
char_at (suc i) (c ∷ s) = char_at i s

-- `newId`, given the twenty random bytes; `byte & 31` is the remainder by 32.
unfoldable pub new_id : IdPrefix → List ℕ → Text
unfolding crockford
new_id prefix bytes = prefix_text prefix ++ lit "_" ++ map (λ b. char_at (b % 32) crockford) bytes

-- `[0-9A-HJKMNP-TV-Z]`
abbrev pub is_crockford : ℕ → Bool
is_crockford c =
    (leb 48 c && leb c 57)
    || (leb 65 c && leb c 72)
    || c == 74
    || c == 75
    || c == 77
    || c == 78
    || (leb 80 c && leb c 84)
    || (leb 86 c && leb c 90)

-- `WORKSPACE_ID_RE`
unfoldable pub is_workspace_id : Text → Bool
is_workspace_id s =
    starts_with (lit "ws_") s && every is_crockford (drop 3 s) && length (drop 3 s) == 20

-- `[a-z0-9-]`
abbrev pub is_name_char : ℕ → Bool
is_name_char c = (leb 97 c && leb c 122) || (leb 48 c && leb c 57) || c == 45

-- `SANDBOX_NAME_RE`
unfoldable pub is_sandbox_name : Text → Bool
is_sandbox_name s =
    starts_with (lit "sb-") s
    && every is_name_char (drop 3 s)
    && leb 1 (length (drop 3 s))
    && leb (length (drop 3 s)) 60
