-- ===== src/Jsonc/Strip.antt =====
-- What `stripJsonc` keeps and what it removes.
use zedspaces.Base.{ℕ, Text, List, [], ◌∷◌, ◌++◌, ◌≡◌, ◌≢◌, refl, ap, All, arith}
use zedspaces.Jsonc.{strip, plain, in_string, line_comment, block_comment, strip_jsonc}

-- A piece of a string literal: a character that stands for itself, or an escaped one.
pub data Piece : Type 0 where
  char : ℕ → Piece
  escape : ℕ → Piece

abbrev pub IsPlain : Piece → Type 0
IsPlain (char c) = (c ≢ 34) × (c ≢ 92)
IsPlain (escape c) = Unit

abbrev pub literal : List Piece → Text
literal [] = []
literal (char c ∷ ps) = c ∷ literal ps
literal (escape c ∷ ps) = 92 ∷ c ∷ literal ps

strip-literal :
    (ps : List Piece) (rest : Text)
    → All IsPlain ps
    → strip in_string (literal ps ++ 34 ∷ rest) ≡ literal ps ++ 34 ∷ strip plain rest
unfolding strip
strip-literal [] rest h = refl
strip-literal (char c ∷ ps) rest h = ground (arith, strip-literal ps rest h.1, h.0)
strip-literal (escape c ∷ ps) rest h = ap (λ s. 92 ∷ c ∷ s) (strip-literal ps rest h.1)

-- A string literal, of characters other than quotes and backslashes and of escaped characters, at
-- the start of a document is left as it is, whatever it looks like inside.
pub strip_jsonc-string :
    (ps : List Piece) (rest : Text)
    → All IsPlain ps
    → strip_jsonc (34 ∷ literal ps ++ 34 ∷ rest) ≡ 34 ∷ literal ps ++ 34 ∷ strip_jsonc rest
unfolding strip_jsonc strip
strip_jsonc-string ps rest h = ap (λ s. 34 ∷ s) (strip-literal ps rest h)

strip-line :
    (body rest : Text)
    → All (λ c. c ≢ 10) body
    → strip line_comment (body ++ 10 ∷ rest) ≡ 10 ∷ strip plain rest
unfolding strip
strip-line [] rest h = refl
strip-line (c ∷ body) rest h = ground (arith, strip-line body rest h.1, h.0)

-- A line comment at the start of a document is removed up to its line feed, which stays.
pub strip_jsonc-line :
    (body rest : Text)
    → All (λ c. c ≢ 10) body
    → strip_jsonc (47 ∷ 47 ∷ body ++ 10 ∷ rest) ≡ 10 ∷ strip_jsonc rest
unfolding strip_jsonc strip
strip_jsonc-line body rest h = strip-line body rest h

strip-block :
    (body rest : Text)
    → All (λ c. c ≢ 42) body
    → strip block_comment (body ++ 42 ∷ 47 ∷ rest) ≡ strip plain rest
unfolding strip
strip-block [] rest h = refl
strip-block (c ∷ body) rest h = ground (arith, strip-block body rest h.1, h.0)

-- A block comment without a star inside at the start of a document is removed.
pub strip_jsonc-block :
    (body rest : Text)
    → All (λ c. c ≢ 42) body
    → strip_jsonc (47 ∷ 42 ∷ body ++ 42 ∷ 47 ∷ rest) ≡ strip_jsonc rest
unfolding strip_jsonc strip
strip_jsonc-block body rest h = strip-block body rest h
