-- ===== src/Jsonc.antt =====
-- `stripJsonc` of apps/web/lib/jsonc.ts, one character at a time. The index of the source is the
-- rest of the text, and where it stands is the mode.
pub mod Strip
use zedspaces.Base.{
  ℕ, Bool, true, false, ◌&&◌, ◌||◌, ◌==◌, Text, is_space, text_eq, trim_start, trim_end, [], ◌∷◌,
  if◌then◌else◌,
}

pub data Mode : Type 0 where
  plain in_string escaped line_comment block_comment : Mode
  -- The second character of `/*` or `*/` is still to be passed over.
  block_opening block_closing : Mode

abbrev pub next_is : ℕ → Text → Bool
next_is c [] = false
next_is c (d ∷ s) = d == c

-- The first character after white space is `}` or `]`.
unfoldable pub closes : Text → Bool
closes [] = false
closes (c ∷ s) = let rest = closes s in if is_space c then rest else c == 125 || c == 93

-- `"` is 34, `\` 92, `/` 47, `*` 42, `,` 44 and the line feed 10.
unfoldable pub strip : Mode → Text → Text
unfolding closes
strip mode [] = []
strip plain (c ∷ s) =
    let in_str = strip in_string s in
    let in_line = strip line_comment s in
    let in_block = strip block_opening s in
    let rest = strip plain s in
    if c == 34
    then c ∷ in_str
    else if c == 47 && next_is 47 s
    then in_line
    else if c == 47 && next_is 42 s
    then in_block
    else if c == 44 && closes s
    then rest
    else c ∷ rest
strip in_string (c ∷ s) =
    let again = strip in_string s in
    let esc = strip escaped s in
    let rest = strip plain s in if c == 92 then c ∷ esc else if c == 34 then c ∷ rest else c ∷ again
strip escaped (c ∷ s) = c ∷ strip in_string s
strip line_comment (c ∷ s) =
    let again = strip line_comment s in
    let rest = strip plain s in if c == 10 then c ∷ rest else again
strip block_opening (c ∷ s) = strip block_comment s
strip block_comment (c ∷ s) =
    let again = strip block_comment s in
    let closing = strip block_closing s in if c == 42 && next_is 47 s then closing else again
strip block_closing (c ∷ s) = strip plain s

unfoldable pub strip_jsonc : Text → Text
unfolding strip
strip_jsonc input = strip plain input

-- `isJsonc`; `parses` says that `JSON.parse` does not throw.
unfoldable pub is_jsonc : (Text → Bool) → Text → Bool
unfolding strip_jsonc
is_jsonc parses input =
    let stripped = trim_end (trim_start (strip_jsonc input)) in
    text_eq stripped [] || parses stripped
