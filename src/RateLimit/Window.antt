-- ===== src/RateLimit/Window.antt =====
-- The budget of a sliding window, over any sequence of requests.
use zedspaces.Base.{
  ℕ, ◌+◌, ◌≤◌, ◌<◌, Bool, ◌&&◌, Option, none, some, List, [], ◌∷◌, ◌++◌, filter, length, ltb, leb,
  ◌≡◌, refl, sym, ◌∙◌, ap, All, arith, Bool-cases, inl, inr, length-append,
}
use zedspaces.RateLimit.{
  Budget, Counter, window_ms, is_recent, read_hits, recent_hits, limit, run, keep,
}

-- The times do not go back.
abbrev pub IsAscending : ℕ → List ℕ → Type 0
IsAscending from [] = Unit
IsAscending from (t ∷ ts) = (from ≤ t) × IsAscending t ts

-- In the window of that length that starts at `from`.
abbrev pub is_within : ℕ → ℕ → ℕ → Bool
is_within window from t = leb from t && ltb t (from + window)

filter-append :
    (test : ℕ → Bool) (xs ys : List ℕ) → filter test (xs ++ ys) ≡ filter test xs ++ filter test ys
filter-append test [] ys = refl
filter-append test (x ∷ xs) ys = ground (arith, filter-append test xs ys)

filter-none :
    (window t : ℕ) (xs : List ℕ)
    → All (λ x. x + window ≤ t) xs
    → filter (is_recent window t) xs ≡ []
filter-none window t [] h = refl
filter-none window t (x ∷ xs) h = ground (arith, filter-none window t xs h.1)

pub filter-recent :
    (window t u : ℕ) (xs : List ℕ)
    → t ≤ u
    → filter (is_recent window u) (filter (is_recent window t) xs) ≡ filter (is_recent window u) xs
filter-recent window t u [] h = refl
filter-recent window t u (x ∷ xs) h = ground (arith, filter-recent window t u xs h)

-- A window that reaches `t` holds only hits that are recent at `t`.
within-le :
    (window from t : ℕ) (xs : List ℕ)
    → t < from + window
    → length (filter (is_within window from) xs) ≤ length (filter (is_recent window t) xs)
within-le window from t [] h = omega arith
within-le window from t (x ∷ xs) h = ground (arith, within-le window from t xs h)

All-append_one :
    (bound t : ℕ) (xs : List ℕ)
    → All (λ x. x ≤ bound) xs
    → t ≤ bound
    → All (λ x. x ≤ bound) (xs ++ t ∷ [])
All-append_one bound t [] h k = (k, tt)
All-append_one bound t (x ∷ xs) h k = (h.0, All-append_one bound t xs h.1 k)

All-later : (now t : ℕ) (xs : List ℕ) → now ≤ t → All (λ x. x ≤ now) xs → All (λ x. x ≤ t) xs
All-later now t [] k h = tt
All-later now t (x ∷ xs) k h = (omega (arith, h.0, k), All-later now t xs k h.1)

All-old :
    (now window u : ℕ) (xs : List ℕ)
    → now + window ≤ u
    → All (λ x. x ≤ now) xs
    → All (λ x. x + window ≤ u) xs
All-old now window u [] k h = tt
All-old now window u (x ∷ xs) k h = (omega (arith, h.0, k), All-old now window u xs k h.1)

-- The counter remembers the tokens granted so far as far as they still count.
record IsFaithful (b : Budget) (now : ℕ) (granted : List ℕ) (c : Option Counter) : Type 0 where
  past : All (λ x. x ≤ now) granted
  view :
      (u : ℕ)
      → now ≤ u
      → filter (is_recent (window_ms b) u) (read_hits c u)
        ≡ filter (is_recent (window_ms b) u) granted
  bounded : (from : ℕ) → length (filter (is_within (window_ms b) from) granted) ≤ b.tokens

module _ (b : Budget) (now t : ℕ) (granted : List ℕ) (c : Option Counter) (later : now ≤ t) where
  granted_view :
      IsFaithful b now granted c
      → (u : ℕ) → t ≤ u
      → filter (is_recent (window_ms b) u) (
          read_hits
            (some (record {
              hits = recent_hits (window_ms b) c t ++ t ∷ [];
              expires_at = t + window_ms b;
            }))
            u)
        ≡ filter (is_recent (window_ms b) u) (granted ++ t ∷ [])
  unfolding read_hits recent_hits
  granted_view h u le = elim (Bool-cases (ltb u (t + window_ms b))) [
    | inl live ↦ rw live (
        filter-append (is_recent (window_ms b) u)
          (filter (is_recent (window_ms b) t) (read_hits c t)) (t ∷ [])
        ∙ ap (λ xs. xs ++ filter (is_recent (window_ms b) u) (t ∷ []))
            (ap (filter (is_recent (window_ms b) u)) (h.view t later)
              ∙ filter-recent (window_ms b) t u granted le)
        ∙ sym (filter-append (is_recent (window_ms b) u) granted (t ∷ [])))
    | inr dead ↦ rw dead (
        sym (
          filter-none (window_ms b) u (granted ++ t ∷ []) (
            All-old t (window_ms b) u (granted ++ t ∷ []) (ground (arith, dead))
              (All-append_one t t granted (All-later now t granted later h.past) (omega arith)))))
  ]

  granted_bounded :
      IsFaithful b now granted c
      → length (recent_hits (window_ms b) c t) < b.tokens
      → (from : ℕ) → length (filter (is_within (window_ms b) from) (granted ++ t ∷ [])) ≤ b.tokens
  unfolding recent_hits
  granted_bounded h room from = rw (filter-append (is_within (window_ms b) from) granted (t ∷ [])) (
      ground (
        arith,
        h.bounded from,
        ap length (h.view t later),
        room,
        within-le (window_ms b) from t granted,
        length-append (filter (is_within (window_ms b) from) granted)
            (filter (is_within (window_ms b) from) (t ∷ [])),
      ))

  step-IsFaithful :
      IsFaithful b now granted c → IsFaithful b t (keep (limit b c t).1 t granted) (limit b c t).0
  unfolding limit
  step-IsFaithful h = elim (Bool-cases (leb b.tokens (length (recent_hits (window_ms b) c t)))) [
    | inl full ↦ rw full (record {
      past = All-later now t granted later h.past;
      view = λ u le. h.view u (omega (arith, le, later));
      bounded = h.bounded;
    })
    | inr room ↦ rw room (record {
      past = All-append_one t t granted (All-later now t granted later h.past) (omega arith);
      view = granted_view h;
      bounded = granted_bounded h (ground (arith, room));
    })
  ]

run_bounded :
    (b : Budget) (now : ℕ) (ts granted : List ℕ) (c : Option Counter)
    → IsAscending now ts
    → IsFaithful b now granted c
    → (from : ℕ) → length (filter (is_within (window_ms b) from) (run b granted c ts)) ≤ b.tokens
unfolding run
run_bounded b now [] granted c asc h from = h.bounded from
run_bounded b now (t ∷ ts) granted c asc h from =
    run_bounded b t ts (keep (limit b c t).1 t granted) (limit b c t).0 asc.1
      (step-IsFaithful b now t granted c asc.0 h) from

-- For requests at times that do not go back, at most as many as the budget has tokens are let
-- through in any window of the budget's length, wherever it starts.
pub run-le_tokens :
    (b : Budget) (ts : List ℕ) (from : ℕ)
    → IsAscending 0 ts
    → length (filter (is_within (window_ms b) from) (run b [] none ts)) ≤ b.tokens
unfolding read_hits
run-le_tokens b ts from asc =
    run_bounded b 0 ts [] none asc
      (record { past = tt; view = λ u le. refl; bounded = λ from. omega arith }) from
