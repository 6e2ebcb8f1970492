-- ===== src/Archive/Naming.antt =====
-- apps/web/lib/archive.ts: reading the digest back from the name of an archive.
use zedspaces.Base.{
  ℕ, Bool, ◌&&◌, if◌then◌else◌, ◌∙◌, Option-cases, zero, suc, ◌+◌, ◌<◌, ◌≤◌, ◌≡◌, ◌≢◌, refl, sym,
  Text, lit, text_eq, text_eq_iff, ◌++◌, Option, none, some, [], ◌∷◌, ◌==◌, decimal, arith, length,
  ap, length-append, All, true, false, Bool-cases, inl, inr,
}
use mathlib.Core.List.{append_assoc}
use zedspaces.Archive.{
  blob_pathname_for, is_hex, after_hex, before_ending, hex_run, digest_here,
  sha256_from_blob_pathname,
}

abbrev Hex : ℕ → Type 0
Hex c = is_hex c ≡ true

abbrev pub all_hex : Text → Bool
all_hex [] = true
all_hex (c ∷ d) = is_hex c && all_hex d

All-all_hex : (d : Text) → all_hex d ≡ true → All Hex d
All-all_hex [] h = tt
All-all_hex (c ∷ d) h = elim (Bool-cases (is_hex c)) [
  | inl hit ↦ (hit, All-all_hex d (rw hit at h))
  | inr miss ↦ absurd (cc)
]

-- A digest is 64 hexadecimal digits, if there is one.
abbrev pub IsDigest : Option Text → Type 0
IsDigest none = Unit
IsDigest (some d) = (all_hex d ≡ true) × (length d ≡ 64)

tail_of : Option (Text × Text) → Text
tail_of none = []
tail_of (some (d, t)) = t

hex_run-length : (n : ℕ) (s d t : Text) → hex_run n s ≡ some (d, t) → length s ≡ n + length t
unfolding hex_run tail_of
hex_run-length zero s d t e = omega (arith, ap (λ o. length (tail_of o)) e)
hex_run-length (suc n) [] d t e = absurd (cc)
hex_run-length (suc n) (c ∷ s) d t e =
    go (is_hex c) (hex_run n s) (λ d' t' q. hex_run-length n s d' t' q) e
  where
    go :
        (b : Bool) (o : Option (Text × Text))
        → ((d' t' : Text) → o ≡ some (d', t') → length s ≡ n + length t')
        → (if b then after_hex c o else none) ≡ some (d, t)
        → suc (length s) ≡ suc n + length t
    go false o q e' = absurd (cc)
    go true none q e' = absurd (cc)
    go true (some (d', t')) q e' = omega (arith, q d' t' refl, ap (λ o. length (tail_of o)) e')

hex_run-digest : (d t : Text) → All Hex d → hex_run (length d) (d ++ t) ≡ some (d, t)
unfolding hex_run
hex_run-digest [] t h = refl
hex_run-digest (c ∷ d) t h = rw (h.0, hex_run-digest d t h.1) refl

-- A run of digits does not pass a slash.
hex_run-slash : (n : ℕ) (u w d t : Text) → hex_run n (u ++ 47 ∷ w) ≡ some (d, t) → n ≤ length u
unfolding hex_run
hex_run-slash zero u w d t e = omega arith
hex_run-slash (suc n) [] w d t e = absurd (cc)
hex_run-slash (suc n) (c ∷ u) w d t e =
    go (is_hex c) (hex_run n (u ++ 47 ∷ w)) (λ d' t' q. hex_run-slash n u w d' t' q) e
  where
    go :
        (b : Bool) (o : Option (Text × Text))
        → ((d' t' : Text) → o ≡ some (d', t') → n ≤ length u)
        → (if b then after_hex c o else none) ≡ some (d, t)
        → suc n ≤ suc (length u)
    go false o q e' = absurd (cc)
    go true none q e' = absurd (cc)
    go true (some (d', t')) q e' = omega (arith, q d' t' refl)

-- A match takes a text of 69 characters.
digest_here-length : (s d : Text) → digest_here s ≡ some d → length s ≡ 69
unfolding digest_here lit
digest_here-length [] d e = absurd (cc)
digest_here-length (c ∷ s) d e = go (c == 45) (hex_run 64 s) refl e
  where
    go :
        (b : Bool) (o : Option (Text × Text))
        → hex_run 64 s ≡ o
        → (if b then before_ending o else none) ≡ some d
        → suc (length s) ≡ 69
    go false o q e' = absurd (cc)
    go true none q e' = absurd (cc)
    go true (some (d', t)) q e' = elim (Bool-cases (text_eq t (lit ".tgz"))) [
      | inl hit ↦
          omega (arith, hex_run-length 64 s d' t q, ap length ((text_eq_iff t (lit ".tgz")).0 hit))
      | inr miss ↦ absurd (cc)
    ]

digest_here-none : (s : Text) → length s ≢ 69 → digest_here s ≡ none
digest_here-none s far = elim (Option-cases (digest_here s)) [
  | inl e ↦ e
  | inr (d, e) ↦ absurd (far (digest_here-length s d e))
]

digest_here-ends :
    (d : Text) → All Hex d → length d ≡ 64 → digest_here (45 ∷ (d ++ lit ".tgz")) ≡ some d
unfolding digest_here text_eq lit
digest_here-ends d h q =
    ap before_ending
      (ap (λ n. hex_run n (d ++ lit ".tgz")) (sym q) ∙ hex_run-digest d (lit ".tgz") h)

-- No match starts before the last 69 characters.
scan-prefix :
    (u s : Text) → length s ≡ 69 → sha256_from_blob_pathname (u ++ s) ≡ sha256_from_blob_pathname s
unfolding sha256_from_blob_pathname
scan-prefix [] s q = refl
scan-prefix (c ∷ u) s q =
    rw (digest_here-none (c ∷ u ++ s) (λ e. omega (arith, e, length-append u s, q)))
      (scan-prefix u s q)

scan-digest :
    (d : Text)
    → All Hex d
    → length d ≡ 64
    → sha256_from_blob_pathname (45 ∷ (d ++ lit ".tgz")) ≡ some d
unfolding sha256_from_blob_pathname
scan-digest d h q = rw (digest_here-ends d h q) refl

-- A short text has no match.
scan-short : (s : Text) → length s < 69 → sha256_from_blob_pathname s ≡ none
unfolding sha256_from_blob_pathname
scan-short [] q = refl
scan-short (c ∷ s) q =
    rw (digest_here-none (c ∷ s) (λ e. omega (arith, e, q))) (scan-short s (omega (arith, q)))

length-slash : (u v : Text) → length (u ++ 47 ∷ (v ++ lit ".tgz")) ≡ length u + length v + 5
unfolding lit
length-slash u v =
    omega (arith, length-append u (47 ∷ (v ++ lit ".tgz")), length-append v (lit ".tgz"))

digest_here-slash :
    (c : ℕ) (u v : Text) → length v ≤ 63 → digest_here (c ∷ u ++ 47 ∷ (v ++ lit ".tgz")) ≡ none
unfolding digest_here
digest_here-slash c u v q = elim (Option-cases (hex_run 64 (u ++ 47 ∷ (v ++ lit ".tgz")))) [
  | inl e ↦ rw e (ground arith)
  | inr ((d, t), e) ↦
      digest_here-none (c ∷ u ++ 47 ∷ (v ++ lit ".tgz"))
        (λ far. omega (arith, far, q, length-slash u v, hex_run-slash 64 u (v ++ lit ".tgz") d t e))
]

scan-slash :
    (u v : Text) → length v ≤ 63 → sha256_from_blob_pathname (u ++ 47 ∷ (v ++ lit ".tgz")) ≡ none
unfolding sha256_from_blob_pathname
scan-slash [] v q = scan-short (47 ∷ (v ++ lit ".tgz")) (omega (arith, q, length-slash [] v))
scan-slash (c ∷ u) v q = rw (digest_here-slash c u v q) (scan-slash u v q)

regroup : (p x v t : Text) → p ++ x ++ v ++ t ≡ p ++ (x ++ (v ++ t))
regroup p x v t = append_assoc (p ++ x) v t ∙ append_assoc p x (v ++ t)

-- The name of an archive gives back the digest it was built with, 64 hexadecimal digits or none at
-- all, for every workspace id, if the notation of the time has at most 63 digits.
pub sha256_from-blob_pathname_for :
    (id : Text) (at : ℕ) (sha : Option Text)
    → IsDigest sha
    → length (decimal at) ≤ 63
    → sha256_from_blob_pathname (blob_pathname_for id at sha) ≡ sha
unfolding blob_pathname_for lit
sha256_from-blob_pathname_for id at none h q =
    ap sha256_from_blob_pathname
      (regroup (lit "rebuild/" ++ id) (lit "/") (decimal at) (lit ".tgz"))
    ∙ scan-slash (lit "rebuild/" ++ id) (decimal at) q
sha256_from-blob_pathname_for id at (some []) h q = absurd (omega (arith, h.1))
sha256_from-blob_pathname_for id at (some (c ∷ d)) h q =
    ap sha256_from_blob_pathname
      (regroup (lit "rebuild/" ++ id ++ lit "/" ++ decimal at) (lit "-") (c ∷ d) (lit ".tgz"))
    ∙ scan-prefix (lit "rebuild/" ++ id ++ lit "/" ++ decimal at) (45 ∷ (c ∷ d ++ lit ".tgz"))
        (omega (arith, h.1, length-append (c ∷ d) (lit ".tgz")))
    ∙ scan-digest (c ∷ d) (All-all_hex (c ∷ d) h.0) h.1
