-- ===== src/RateLimit.antt =====
-- apps/web/lib/ratelimit.ts: sliding-window budgets. A counter is the row of its key in the
-- key-value table, with the JSON list of the hits decoded; `none` is no row.
pub mod Window
pub mod Retry
use zedspaces.Base.{
  ℕ, ◌+◌, ◌*◌, ◌-◌, ◌/◌, Bool, Option, none, some, List, [], ◌∷◌, ◌++◌, filter, length, ltb, leb,
  max, if◌then◌else◌,
}

pub data LimitName : Type 0 where
  sandbox_manifest sandbox_ports sandbox_activity sandbox_logs sandbox_client_errors : LimitName
  sandbox_extensions sandbox_auth_failures user_workspaces_create user_connect : LimitName
  user_keepalive user_export user_process user_client_errors user_repos : LimitName

pub record Budget : Type 0 where
  pub tokens : ℕ
  pub window_sec : ℕ

-- `LIMITS`
unfoldable pub limits : LimitName → Budget
limits sandbox_manifest = record { tokens = 60; window_sec = 60 }
limits sandbox_ports = record { tokens = 30; window_sec = 60 }
limits sandbox_activity = record { tokens = 40; window_sec = 60 }
limits sandbox_logs = record { tokens = 120; window_sec = 60 }
limits sandbox_client_errors = record { tokens = 60; window_sec = 60 }
limits sandbox_extensions = record { tokens = 30; window_sec = 60 }
limits sandbox_auth_failures = record { tokens = 20; window_sec = 60 }
limits user_workspaces_create = record { tokens = 10; window_sec = 600 }
limits user_connect = record { tokens = 60; window_sec = 60 }
limits user_keepalive = record { tokens = 30; window_sec = 60 }
limits user_export = record { tokens = 3; window_sec = 60 }
limits user_process = record { tokens = 12; window_sec = 60 }
limits user_client_errors = record { tokens = 60; window_sec = 60 }
limits user_repos = record { tokens = 30; window_sec = 60 }

pub record Counter : Type 0 where
  pub hits : List ℕ
  pub expires_at : ℕ

-- What one request gets: a token, or the seconds after which to retry.
pub data Verdict : Type 0 where
  allowed : Verdict
  limited : ℕ → Verdict

abbrev pub window_ms : Budget → ℕ
window_ms b = b.window_sec * 1000

-- `at > now - windowMs`
abbrev pub is_recent : ℕ → ℕ → ℕ → Bool
is_recent window t hit = ltb t (hit + window)

-- `SELECT … AND expires_at > now`
unfoldable pub read_hits : Option Counter → ℕ → List ℕ
read_hits none t = []
read_hits (some c) t = if ltb t c.expires_at then c.hits else []

unfoldable pub recent_hits : ℕ → Option Counter → ℕ → List ℕ
unfolding read_hits
recent_hits window c t = filter (is_recent window t) (read_hits c t)

-- `Math.max(1, Math.ceil(ms / 1000))`
abbrev pub retry_after : ℕ → ℕ
retry_after ms = max 1 ((ms + 999) / 1000)

abbrev pub oldest : List ℕ → ℕ
oldest [] = 0
oldest (hit ∷ hits) = hit

-- `limit`: the counter after the request, and its verdict.
unfoldable pub limit : Budget → Option Counter → ℕ → Option Counter × Verdict
unfolding recent_hits
limit b c t =
    let hits = recent_hits (window_ms b) c t in
    if leb b.tokens (length hits)
    then (c, limited (retry_after (oldest hits + window_ms b - t)))
    else (some (record { hits = hits ++ t ∷ []; expires_at = t + window_ms b }), allowed)

abbrev pub keep : Verdict → ℕ → List ℕ → List ℕ
keep allowed t granted = granted ++ t ∷ []
keep (limited s) t granted = granted

-- Requests at the given times: the times of those that got a token, oldest first, after `granted`.
unfoldable pub run : Budget → List ℕ → Option Counter → List ℕ → List ℕ
unfolding limit
run b granted c [] = granted
run b granted c (t ∷ ts) = run b (keep (limit b c t).1 t granted) (limit b c t).0 ts
