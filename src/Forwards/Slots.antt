-- ===== src/Forwards/Slots.antt =====
-- No two ports of a workspace share a slot: `Unique rows rows`, and what keeps it.
use zedspaces.Base.{
  ℕ, Bool, true, false, not, Option, none, some, List, [], ◌∷◌, filter, ◌≡◌, ◌≢◌, refl, sym, ◌∙◌,
  All, arith, ◌==◌, ==_iff, Bool-cases, inl, inr, ◌||◌, some_inj, ap,
}
use zedspaces.Schema.{Forward, proxy_slots}
use zedspaces.Forwards.{upsert, is_taken, holds_slot, free_slots}

-- Only the row of `port` holds the slot.
abbrev pub Reserved : ℕ → ℕ → List Forward → Type 0
Reserved slot port rows = All (λ r. r.slot ≡ some slot → r.port ≡ port) rows

-- What a row of `xs` holds, no row of another port in `ys` holds.
abbrev pub Unique : List Forward → List Forward → Type 0
Unique xs ys = All (λ k. (slot : ℕ) → k.slot ≡ some slot → Reserved slot k.port ys) xs

abbrev pub Unheld : ℕ → List Forward → Type 0
Unheld slot rows = All (λ r. r.slot ≢ some slot) rows

-- The numbers are different from each other.
abbrev pub Distinct : List ℕ → Type 0
Distinct [] = Unit
Distinct (x ∷ xs) = All (λ y. y ≢ x) xs × Distinct xs

module _ {A : Type 0} where
  pub All-map : (P Q : A → Type 0) (xs : List A) → ((a : A) → P a → Q a) → All P xs → All Q xs
  All-map P Q [] f h = tt
  All-map P Q (x ∷ xs) f (hx, h) = (f x hx, All-map P Q xs f h)

  pub All-both :
      (P Q R : A → Type 0) (xs : List A)
      → ((a : A) → P a → Q a → R a)
      → All P xs
      → All Q xs
      → All R xs
  All-both P Q R [] f h k = tt
  All-both P Q R (x ∷ xs) f (hx, h) (kx, k) = (f x hx kx, All-both P Q R xs f h k)

  pub All-filter :
      (P : A → Type 0) (test : A → Bool) (xs : List A) → All P xs → All P (filter test xs)
  All-filter P test [] h = tt
  All-filter P test (x ∷ xs) (hx, h) = elim (Bool-cases (test x)) [
    | inl hit ↦ rw hit (hx, All-filter P test xs h)
    | inr miss ↦ rw miss (All-filter P test xs h)
  ]

pub Distinct-filter : (test : ℕ → Bool) (xs : List ℕ) → Distinct xs → Distinct (filter test xs)
Distinct-filter test [] h = tt
Distinct-filter test (x ∷ xs) (hx, h) = elim (Bool-cases (test x)) [
  | inl hit ↦ rw hit (All-filter (λ y. y ≢ x) test xs hx, Distinct-filter test xs h)
  | inr miss ↦ rw miss (Distinct-filter test xs h)
]

pub All-upsert :
    (P : Forward → Type 0) (port : ℕ) (f : Forward → Forward) (new : Forward) (rows : List Forward)
    → All P rows
    → ((r : Forward) → r.port ≡ port → P (f r))
    → P new
    → All P (upsert port f new rows)
unfolding upsert
All-upsert P port f new [] h kf kn = (kn, tt)
All-upsert P port f new (r ∷ rs) (hr, h) kf kn = elim (Bool-cases (r.port == port)) [
  | inl hit ↦ rw hit (kf r ((==_iff _ _).0 hit), h)
  | inr miss ↦ rw miss (hr, All-upsert P port f new rs h kf kn)
]

-- A write of the slot `c` for the port `q`.
module _ (c q : ℕ) (f : Forward → Forward) (new : Forward)
    (f_slot : (r : Forward) → (f r).slot ≡ some c) (f_port : (r : Forward) → (f r).port ≡ r.port)
    (new_slot : new.slot ≡ some c) (new_port : new.port ≡ q) where
  Reserved-upsert :
      (slot port : ℕ) (rows : List Forward)
      → Reserved slot port rows
      → (slot ≡ c → port ≡ q)
      → Reserved slot port (upsert q f new rows)
  Reserved-upsert slot port rows h same =
      All-upsert (λ r. r.slot ≡ some slot → r.port ≡ port) q f new rows h
        (λ r at e. f_port r ∙ at ∙ sym (same (sym (some_inj c slot (sym (f_slot r) ∙ e)))))
        (λ e. new_port ∙ sym (same (sym (some_inj c slot (sym new_slot ∙ e)))))

  -- The port may hold the slot, in `xs` and in `rows`.
  pub Unique-upsert_right :
      (xs rows : List Forward) → Unique xs rows → Reserved c q xs → Unique xs (upsert q f new rows)
  Unique-upsert_right xs rows h free =
      All-both (λ k. (slot : ℕ) → k.slot ≡ some slot → Reserved slot k.port rows)
        (λ k. k.slot ≡ some c → k.port ≡ q)
        (λ k. (slot : ℕ) → k.slot ≡ some slot → Reserved slot k.port (upsert q f new rows)) xs
        (λ k hk free_k slot e.
          Reserved-upsert slot k.port rows (hk slot e) (λ same. free_k (e ∙ ap some same)))
        h free

  pub Unique-upsert :
      (rows : List Forward)
      → Unique rows rows
      → Reserved c q rows
      → Unique (upsert q f new rows) (upsert q f new rows)
  Unique-upsert rows h free =
      All-upsert (λ k. (slot : ℕ) → k.slot ≡ some slot → Reserved slot k.port (upsert q f new rows))
        q f new rows (Unique-upsert_right rows rows h free)
        (λ r at slot e. mine slot (f r).port (f_port r ∙ at) (some_inj c slot (sym (f_slot r) ∙ e)))
        (λ slot e. mine slot new.port new_port (some_inj c slot (sym new_slot ∙ e)))
    where
      mine : (slot port : ℕ) → port ≡ q → c ≡ slot → Reserved slot port (upsert q f new rows)
      mine slot port at same =
          Reserved-upsert slot port rows
            (All-map (λ r. r.slot ≡ some c → r.port ≡ q) (λ r. r.slot ≡ some slot → r.port ≡ port)
              rows (λ r k e. k (e ∙ ap some (sym same)) ∙ sym at) free)
            (λ _. at)

  pub Unheld-upsert :
      (slot : ℕ) (rows : List Forward)
      → slot ≢ c
      → Unheld slot rows
      → Unheld slot (upsert q f new rows)
  Unheld-upsert slot rows other h =
      All-upsert (λ r. r.slot ≢ some slot) q f new rows h
        (λ r at e. other (sym (some_inj c slot (sym (f_slot r) ∙ e))))
        (λ e. other (sym (some_inj c slot (sym new_slot ∙ e))))

pub Unheld-Reserved :
    (slot port : ℕ) (rows : List Forward) → Unheld slot rows → Reserved slot port rows
Unheld-Reserved slot port rows h =
    All-map (λ r. r.slot ≢ some slot) (λ r. r.slot ≡ some slot → r.port ≡ port) rows
      (λ r k e. absurd (k e)) h

pub is_taken-Unheld :
    (rows : List Forward) (slot : ℕ) → is_taken rows slot ≡ false → Unheld slot rows
unfolding is_taken
is_taken-Unheld [] slot h = tt
is_taken-Unheld (r ∷ rs) slot h =
    (apart r.slot (or_false h).0, is_taken-Unheld rs slot (or_false h).1)
  where
    or_false : {a b : Bool} → (a || b) ≡ false → (a ≡ false) × (b ≡ false)
    or_false {a} {b} e = ground arith

    apart : (o : Option ℕ) → holds_slot slot o ≡ false → o ≢ some slot
    apart none e same = cc
    apart (some held) e same = ground (arith, ==_iff held slot, some_inj held slot same)

All-filter-true :
    (P : ℕ → Type 0) (test : ℕ → Bool) (xs : List ℕ)
    → ((a : ℕ) → test a ≡ true → P a)
    → All P (filter test xs)
All-filter-true P test [] k = tt
All-filter-true P test (x ∷ xs) k = elim (Bool-cases (test x)) [
  | inl hit ↦ rw hit (k x hit, All-filter-true P test xs k)
  | inr miss ↦ rw miss (All-filter-true P test xs k)
]

pub free_slots-Unheld : (rows : List Forward) → All (λ slot. Unheld slot rows) (free_slots rows)
unfolding free_slots
free_slots-Unheld rows =
    All-filter-true (λ slot. Unheld slot rows) (λ slot. not (is_taken rows slot)) proxy_slots
      (λ slot h. is_taken-Unheld rows slot (not_true (is_taken rows slot) h))
  where
    not_true : (b : Bool) → not b ≡ true → b ≡ false
    not_true true e = sym e
    not_true false e = refl

pub free_slots-Distinct : (rows : List Forward) → Distinct (free_slots rows)
unfolding free_slots
free_slots-Distinct rows = Distinct-filter _ proxy_slots distinct
  where
    distinct : Distinct proxy_slots
    distinct = unfold proxy_slots in ground arith
