-- ===== src/Base/Decimal.antt =====
-- The decimal notation of a number, as JavaScript's `${n}` prints it, and reading it back.
use Prim.Native.Nat.{ℕ, zero, suc, ◌+◌, ◌-◌, ◌*◌, ◌/◌, ◌%◌, ◌<◌}
use mathlib.Core.Path.{◌≡◌, refl, sym, ap, ◌∙◌}
use mathlib.Core.List.{[], ◌∷◌, ◌++◌}
use native.Mathlib.Omega.{arith}
use mathlib.Core.Option.{Option, some, none}
use mathlib.Core.Bool.{Bool, true, ◌&&◌}
use zedspaces.Base.Lists.{every, every-append}
use zedspaces.Base.Tests.{ltb, leb, some_inj, if◌then◌else◌, Bool-cases}
use mathlib.Core.Logic.{inl, inr}
use zedspaces.Base.Strings.{Text}

digits : ℕ → ℕ → Text
digits zero n = []
digits (suc f) n =
    let rest = digits f (n / 10) ++ (48 + n % 10) ∷ [] in if ltb n 10 then (48 + n) ∷ [] else rest

unfoldable pub decimal : ℕ → Text
unfolding digits
decimal n = digits (suc n) n

read : ℕ → Text → ℕ
read acc [] = acc
read acc (c ∷ cs) = read (acc * 10 + (c - 48)) cs

read-concat : (acc : ℕ) (xs : Text) (c : ℕ) → read acc (xs ++ c ∷ []) ≡ read acc xs * 10 + (c - 48)
unfolding read
read-concat acc [] c = refl
read-concat acc (x ∷ xs) c = read-concat (acc * 10 + (x - 48)) xs c

read-digits : (f n : ℕ) → n < f → read 0 (digits f n) ≡ n
unfolding read digits
read-digits zero n h = elim h [ ]
read-digits (suc f) n h = elim (Bool-cases (ltb n 10)) [
  | inl small ↦ rw small (omega arith)
  | inr large ↦ rw large (
      read-concat 0 (digits f (n / 10)) (48 + n % 10)
      ∙ omega (arith, read-digits f (n / 10) (ground arith)))
]

-- Different numbers have different notations.
pub decimal-injective : (m n : ℕ) → decimal m ≡ decimal n → m ≡ n
unfolding decimal
decimal-injective m n e =
    sym (read-digits (suc m) m (omega arith)) ∙ ap (read 0) e ∙ read-digits (suc n) n (omega arith)

pub append-cancel_left : (xs ys zs : Text) → xs ++ ys ≡ xs ++ zs → ys ≡ zs
append-cancel_left [] ys zs e = e
append-cancel_left (x ∷ xs) ys zs e = append-cancel_left xs ys zs (cc)

-- The value of a decimal notation, none for any other text.
unfoldable pub digits_value : ℕ → Text → Option ℕ
digits_value acc [] = some acc
digits_value acc (c ∷ s) =
    let rest = digits_value (acc * 10 + (c - 48)) s in if leb 48 c && leb c 57 then rest else none

abbrev pub is_digit : ℕ → Bool
is_digit c = leb 48 c && leb c 57

digits-digits : (f n : ℕ) → every is_digit (digits f n) ≡ true
unfolding digits
digits-digits zero n = refl
digits-digits (suc f) n = elim (Bool-cases (ltb n 10)) [
  | inl small ↦ rw small (ground arith)
  | inr large ↦ rw large (
      every-append is_digit (digits f (n / 10)) ((48 + n % 10) ∷ []) (digits-digits f (n / 10))
        (ground arith))
]

pub decimal-digits : (n : ℕ) → every is_digit (decimal n) ≡ true
unfolding decimal
decimal-digits n = digits-digits (suc n) n

digits_value-concat :
    (acc : ℕ) (xs : Text) (c m : ℕ)
    → leb 48 c && leb c 57 ≡ true
    → digits_value acc xs ≡ some m
    → digits_value acc (xs ++ c ∷ []) ≡ some (m * 10 + (c - 48))
unfolding digits_value
digits_value-concat acc [] c m h e = rw (h, some_inj acc m e) refl
digits_value-concat acc (x ∷ xs) c m h e = elim (Bool-cases (leb 48 x && leb x 57)) [
  | inl hit ↦ rw hit (digits_value-concat (acc * 10 + (x - 48)) xs c m h (rw hit at e))
  | inr miss ↦ absurd (cc)
]

digits_value-digits : (f n : ℕ) → n < f → digits_value 0 (digits f n) ≡ some n
unfolding digits digits_value
digits_value-digits zero n h = elim h [ ]
digits_value-digits (suc f) n h = elim (Bool-cases (ltb n 10)) [
  | inl small ↦
      rw small (digits_value-concat 0 [] (48 + n) 0 (ground arith) refl ∙ ap some (omega arith))
  | inr large ↦ rw large (
      digits_value-concat 0 (digits f (n / 10)) (48 + n % 10) (n / 10) (ground arith)
        (digits_value-digits f (n / 10) (ground arith))
      ∙ ap some (omega arith))
]

-- Reading a notation back.
pub digits_value-decimal : (n : ℕ) → digits_value 0 (decimal n) ≡ some n
unfolding decimal
digits_value-decimal n = digits_value-digits (suc n) n (omega arith)
