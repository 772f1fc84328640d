-- ===== src/Limits/Rate.antt =====
-- internal/middleware/ratelimit.go: the sliding window of requests. Times and the window are
-- nanoseconds; a key that is not in the map has no requests. `now` is the time that a call reads from
-- the clock, and the mutex makes each call one step.
use license_server_ai.Base.{
  ℕ, ◌+◌, String, Bool, true, false, ◌&&◌, List, [], ◌∷◌, ◌++◌, if◌then◌else◌, str_eq, length,
  filter_if, ltb,
}
use license_server_ai.Base.Int.{ℤ, pos, leb_ℤ}

pub record RateLimiter : Type 0 where
  pub requests : String → List ℕ
  pub limit : ℤ  -- int
  pub window : ℕ  -- time.Duration

-- `NewRateLimiter`.
abbrev pub new_rate_limiter : ℤ → ℕ → RateLimiter
new_rate_limiter limit window = record { requests = λ _. []; limit = limit; window = window }

-- `t.After(now.Add(-window))`.
abbrev pub is_recent : ℕ → ℕ → ℕ → Bool
is_recent now window t = ltb now (t + window)

abbrev pub recent : ℕ → ℕ → List ℕ → List ℕ
recent now window ts = filter_if (is_recent now window) ts

abbrev pub put : String → List ℕ → (String → List ℕ) → String → List ℕ
put key ts m k = if str_eq key k then ts else m k

-- `Allow`.
unfoldable pub allow : String → ℕ → RateLimiter → Bool × RateLimiter
allow key now rl =
    let valid = recent now rl.window (rl.requests key) in
    if leb_ℤ rl.limit (pos (length valid))
    then (false, record rl { requests = put key valid rl.requests })
    else (true, record rl { requests = put key (valid ++ now ∷ []) rl.requests })

-- One round of `cleanup`.
unfoldable pub cleanup : ℕ → RateLimiter → RateLimiter
cleanup now rl = record rl { requests = λ k. recent now rl.window (rl.requests k) }

-- What happens to a limiter, with the time at which it happens.
pub data Event : Type 0 where
  request : String → ℕ → Event
  clean : ℕ → Event

-- The times of the requests of a key that were let through.
unfoldable pub admitted : String → RateLimiter → List Event → List ℕ
admitted k rl [] = []
admitted k rl (request key now ∷ es) =
    let (allowed, rl') = allow key now rl in
    let rest = admitted k rl' es in if allowed && str_eq key k then now ∷ rest else rest
admitted k rl (clean now ∷ es) = admitted k (cleanup now rl) es
