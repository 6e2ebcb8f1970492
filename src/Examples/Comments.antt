-- ===== src/Examples/Comments.antt =====
-- Documents with comments.
use zedspaces.Base.{is_space, Text, List, [], ◌∷◌, ◌++◌, ◌≡◌, refl, All, arith, is_space}
use zedspaces.Jsonc.{strip_jsonc, strip}
use zedspaces.Jsonc.Strip.{Piece, char, escape, IsPlain, literal, strip_jsonc-string}

-- `//\"`
abbrev pieces : List Piece
pieces = char 47 ∷ char 47 ∷ escape 34 ∷ []

slash-IsPlain : IsPlain (char 47)
slash-IsPlain = ground arith

pieces-IsPlain : All IsPlain pieces
pieces-IsPlain = (slash-IsPlain, (slash-IsPlain, (tt, tt)))

strip_jsonc-string_example :
    strip_jsonc (34 ∷ literal pieces ++ 34 ∷ (44 ∷ 93 ∷ []))
    ≡ 34 ∷ literal pieces ++ 34 ∷ strip_jsonc (44 ∷ 93 ∷ [])
strip_jsonc-string_example = strip_jsonc-string pieces (44 ∷ 93 ∷ []) pieces-IsPlain

abbrev word : Text
word = 97 ∷ 98 ∷ []

-- `[1,//` and a line feed and `]`: the comma before the comment stays.
comma_before_comment :
    strip_jsonc (91 ∷ 49 ∷ 44 ∷ 47 ∷ 47 ∷ 10 ∷ 93 ∷ []) ≡ 91 ∷ 49 ∷ 44 ∷ 10 ∷ 93 ∷ []
unfolding strip_jsonc strip is_space
comma_before_comment = refl
