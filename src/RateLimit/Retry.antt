-- ===== src/RateLimit/Retry.antt =====
-- What the seconds of a refusal promise.
use zedspaces.Base.{
  ℕ, ◌+◌, ◌*◌, ◌-◌, ◌≤◌, ◌<◌, true, false, Option, none, some, List, [], ◌∷◌, filter, length, ltb,
  leb, ◌≡◌, refl, arith, if◌then◌else◌, Bool-cases, inl, inr, length-filter-le,
}
use zedspaces.RateLimit.{
  Budget, Counter, allowed, limited, window_ms, is_recent, read_hits, recent_hits, retry_after,
  oldest, limit,
}
use zedspaces.RateLimit.Window.{filter-recent}

retry_after-≤ : (ms : ℕ) → ms ≤ retry_after ms * 1000
retry_after-≤ ms = omega arith

-- Once the oldest hit is out of the window, there are fewer hits than before.
fewer :
    (window u : ℕ) (hits : List ℕ) (n : ℕ)
    → 1 ≤ n
    → length hits ≤ n
    → oldest hits + window ≤ u
    → length (filter (is_recent window u) hits) < n
fewer window u [] n pos le gone = omega (arith, pos)
fewer window u (h ∷ hs) n pos le gone =
    ground (arith, length-filter-le (is_recent window u) hs, le, gone)

read_later :
    (window : ℕ) (c : Option Counter) (t u n : ℕ)
    → t ≤ u
    → 1 ≤ n
    → length (recent_hits window c t) ≤ n
    → oldest (recent_hits window c t) + window ≤ u
    → length (recent_hits window c u) < n
unfolding recent_hits read_hits
read_later window none t u n le pos few gone = omega (arith, pos)
read_later window (some c) t u n le pos few gone = elim (Bool-cases (ltb u c.expires_at)) [
  | inl live ↦ live_case live
  | inr dead ↦ rw dead (omega (arith, pos))
]
  where
    live_case :
        ltb u c.expires_at ≡ true
        → length (filter (is_recent window u) (if ltb u c.expires_at then c.hits else [])) < n
    live_case live =
        rw (live, ← filter-recent window t u c.hits le)
          (fewer window u (filter (is_recent window t) c.hits) n pos (rw before at few)
            (rw before at gone))
      where
        before : ltb t c.expires_at ≡ true
        before = ground (arith, live, le)

-- With a budget of at least one token and no more hits in the window than it has tokens, a request
-- that is refused with some seconds is let through when it is made again after at least those
-- seconds, if no other request came between.
pub limit-retry :
    (b : Budget) (c : Option Counter) (t u seconds : ℕ)
    → 1 ≤ b.tokens
    → length (recent_hits (window_ms b) c t) ≤ b.tokens
    → (limit b c t).1 ≡ limited seconds
    → t + seconds * 1000 ≤ u
    → (limit b c u).1 ≡ allowed
unfolding limit
limit-retry b c t u seconds pos few refusal waited =
    elim (Bool-cases (leb b.tokens (length (recent_hits (window_ms b) c t)))) [
      | inl full ↦ later (same_seconds _ (rw full at refusal))
      | inr room ↦ absurd (clash (rw room at refusal))
    ]
  where
    first : ℕ
    first = oldest (recent_hits (window_ms b) c t)

    clash : allowed ≡ limited seconds → ⊥
    clash q = cc

    same_seconds : (n : ℕ) → limited n ≡ limited seconds → n ≡ seconds
    same_seconds n q = cc

    gone :
        (ms n v : ℕ)
        → n + window_ms b - t ≡ ms
        → retry_after ms ≡ seconds
        → t + seconds * 1000 ≤ v
        → n + window_ms b ≤ v
    gone ms n v em es le = omega (arith, em, es, le, retry_after-≤ ms)

    few_later :
        (v : ℕ)
        → t ≤ v
        → first + window_ms b ≤ v
        → length (recent_hits (window_ms b) c v) < b.tokens
    few_later v le out = read_later (window_ms b) c t v b.tokens le pos few out

    decide : (n : ℕ) → n < b.tokens → leb b.tokens n ≡ false
    decide n lt = ground (arith, lt)

    later : retry_after (first + window_ms b - t) ≡ seconds → (limit b c u).1 ≡ allowed
    later es =
        rw
          (decide (length (recent_hits (window_ms b) c u)) (
            few_later u (omega (arith, waited))
              (gone (first + window_ms b - t) first u refl es waited)))
          refl
