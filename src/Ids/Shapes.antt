-- ===== src/Ids/Shapes.antt =====
-- Minted ids and the names derived from them have the shapes that the routes ask for.
use zedspaces.Base.{
  ℕ, zero, suc, ◌+◌, ◌%◌, ◌≤◌, ◌<◌, ◌≡◌, refl, Bool, true, Text, lit, ◌++◌, [], ◌∷◌, List, Option,
  none, some, map, starts_with, length, length-append, every, every-append, arith, decimal,
  decimal-digits, is_digit,
}
use zedspaces.Schema.{
  Env, new_sandbox_name, to_lower, env_short, short_of, production, preview, development, VercelEnv,
}
use zedspaces.Ids.{
  ws, crockford, char_at, new_id, is_crockford, is_workspace_id, is_name_char, is_sandbox_name,
}

char_at-every :
    (p : ℕ → Bool) (i : ℕ) (s : Text) → i < length s → every p s ≡ true → p (char_at i s) ≡ true
char_at-every p i [] lt h = absurd (omega (arith, lt))
char_at-every p zero (c ∷ s) lt h = ground (arith, h)
char_at-every p (suc i) (c ∷ s) lt h = char_at-every p i s (omega (arith, lt)) (ground (arith, h))

body : List ℕ → Text
body bytes = map (λ b. char_at (b % 32) crockford) bytes

crockford-shape : (b : ℕ) → is_crockford (char_at (b % 32) crockford) ≡ true
unfolding crockford lit
crockford-shape b = char_at-every is_crockford (b % 32) crockford (omega arith) refl

body-shape : (bytes : List ℕ) → every is_crockford (body bytes) ≡ true
unfolding body
body-shape [] = refl
body-shape (b ∷ bytes) = rw (crockford-shape b) (body-shape bytes)

body-length : (bytes : List ℕ) → length (body bytes) ≡ length bytes
unfolding body
body-length [] = refl
body-length (b ∷ bytes) = omega (arith, body-length bytes)

-- x
pub is_workspace_id-new_id :
    (bytes : List ℕ) → length bytes ≡ 20 → is_workspace_id (new_id ws bytes) ≡ true
unfolding is_workspace_id new_id starts_with lit body
is_workspace_id-new_id bytes q = rw (body-shape bytes) (ground (arith, body-length bytes, q))

is_name_char-to_lower : (c : ℕ) → is_crockford c ≡ true → is_name_char (to_lower c) ≡ true
is_name_char-to_lower c h = ground (arith, h)

lower-shape : (s : Text) → every is_crockford s ≡ true → every is_name_char (map to_lower s) ≡ true
lower-shape [] h = refl
lower-shape (c ∷ s) h =
    rw (is_name_char-to_lower c (ground (arith, h))) (lower-shape s (ground (arith, h)))

length-map_text : (f : ℕ → ℕ) (s : Text) → length (map f s) ≡ length s
length-map_text f [] = refl
length-map_text f (c ∷ s) = omega (arith, length-map_text f s)

digits-shape : (s : Text) → every is_digit s ≡ true → every is_name_char s ≡ true
digits-shape [] h = refl
digits-shape (c ∷ s) h = ground (arith, digits-shape s (ground (arith, h)), h)

short_of-shape :
    (v : Option VercelEnv) → (every is_name_char (short_of v) ≡ true) × (length (short_of v) ≤ 4)
unfolding lit
short_of-shape none = (refl, omega arith)
short_of-shape (some production) = (refl, omega arith)
short_of-shape (some preview) = (refl, omega arith)
short_of-shape (some development) = (refl, omega arith)

-- What follows `sb-` in the name of a sandbox.
abbrev tail_of : Text → Text → Text → Text
tail_of env id generation = env ++ lit "-" ++ id ++ lit "-g" ++ generation

tail-shape :
    (env id generation : Text)
    → every is_name_char env ≡ true
    → every is_name_char id ≡ true
    → every is_name_char generation ≡ true
    → every is_name_char (tail_of env id generation) ≡ true
unfolding lit
tail-shape env id generation he hi hg =
    every-append is_name_char (env ++ lit "-" ++ id ++ lit "-g") generation
      (every-append is_name_char (env ++ lit "-" ++ id) (lit "-g")
        (every-append is_name_char (env ++ lit "-") id
          (every-append is_name_char env (lit "-") he refl) hi)
        refl)
      hg

tail-length :
    (env id generation : Text)
    → length (tail_of env id generation) ≡ length env + 1 + length id + 2 + length generation
unfolding lit
tail-length env id generation = omega (
  arith,
  length-append (env ++ lit "-" ++ id ++ lit "-g") generation,
  length-append (env ++ lit "-" ++ id) (lit "-g"),
  length-append (env ++ lit "-") id,
  length-append env (lit "-"),
)

-- The sandbox name built from a new workspace id of twenty random bytes, in every deployment,
-- matches the expression that the sandbox routes ask for, if the notation of the generation has at
-- most 33 digits.
pub is_sandbox_name-new_sandbox_name :
    (e : Env) (bytes : List ℕ) (generation : ℕ)
    → length bytes ≡ 20
    → length (decimal generation) ≤ 33
    → is_sandbox_name (new_sandbox_name e (new_id ws bytes) generation) ≡ true
unfolding is_sandbox_name new_sandbox_name new_id starts_with lit body
is_sandbox_name-new_sandbox_name e bytes generation q short = rw shaped (
    ground (
      arith,
      tail-length (env_short e) (map to_lower (body bytes)) (decimal generation),
      (short_of-shape e.vercel_env).1,
      length-map_text to_lower (body bytes),
      body-length bytes,
      q,
      short,
    ))
  where
    shaped :
        every is_name_char (tail_of (env_short e) (map to_lower (body bytes)) (decimal generation))
        ≡ true
    shaped =
        tail-shape (env_short e) (map to_lower (body bytes)) (decimal generation)
          (short_of-shape e.vercel_env).0 (lower-shape (body bytes) (body-shape bytes))
          (digits-shape (decimal generation) (decimal-digits generation))
