-- ===== src/Limits/Counts.antt =====
-- How many of a list of times fall into a window, and what `Allow` of internal/middleware/ratelimit.go
-- does to a key's times.
use license_server_ai.Base.{
  ℕ, ◌+◌, ◌≤◌, ◌<◌, ◌≡◌, refl, ap, String, Bool, true, false, ◌&&◌, List, [], ◌∷◌, ◌++◌, arith,
  str_eq, length, count_if, leb, ltb, eq_iff,
}
use license_server_ai.Base.Int.{pos, pos_part}
use license_server_ai.Limits.Rate.{RateLimiter, recent, allow, Event, request, clean, admitted}

-- The time is in the window that ends at `t`.
abbrev pub in_window : ℕ → ℕ → ℕ → Bool
in_window w t x = leb x t && ltb t (x + w)

abbrev pub count : ℕ → ℕ → List ℕ → ℕ
count w t xs = count_if (in_window w t) xs

-- The clock does not run backwards.
abbrev pub InOrder : ℕ → List Event → Type 0
InOrder from [] = Unit
InOrder from (request key now ∷ es) = (from ≤ now) × InOrder now es
InOrder from (clean now ∷ es) = (from ≤ now) × InOrder now es

pub count-length : (w t : ℕ) (xs : List ℕ) → count w t xs ≤ length xs
count-length w t [] = omega arith
count-length w t (x ∷ xs) = ground (arith, count-length w t xs)

pub count-recent_le : (w t now : ℕ) (xs : List ℕ) → count w t (recent now w xs) ≤ count w t xs
count-recent_le w t now [] = omega arith
count-recent_le w t now (x ∷ xs) = ground (arith, count-recent_le w t now xs)

-- What is no longer recent counts in no later window.
pub count-recent :
    (w t now : ℕ) (xs : List ℕ) → now ≤ t → count w t (recent now w xs) ≡ count w t xs
count-recent w t now [] h = refl
count-recent w t now (x ∷ xs) h = ground (arith, count-recent w t now xs h)

pub count-append : (w t : ℕ) (xs ys : List ℕ) → count w t (xs ++ ys) ≡ count w t xs + count w t ys
count-append w t [] ys = omega arith
count-append w t (x ∷ xs) ys = ground (arith, count-append w t xs ys)

-- What is let through later counts in no earlier window.
pub count-admitted_zero :
    (k : String) (w t from : ℕ) (es : List Event) (rl : RateLimiter)
    → t < from
    → InOrder from es
    → count w t (admitted k rl es) ≡ 0
unfolding admitted
count-admitted_zero k w t from [] rl h o = refl
count-admitted_zero k w t from (clean now ∷ es) rl h o =
    count-admitted_zero k w t now es _ (omega arith) o.1
count-admitted_zero k w t from (request key now ∷ es) rl h o =
    let rest = count-admitted_zero k w t now es (allow key now rl).1 (omega arith) o.1 in
    ground (arith, rest, o.0)

pub allow-window :
    (key : String) (now : ℕ) (rl : RateLimiter) → (allow key now rl).1.window ≡ rl.window
unfolding allow
allow-window key now rl = ground arith

pub allow-limit :
    (key : String) (now : ℕ) (rl : RateLimiter) → (allow key now rl).1.limit ≡ rl.limit
unfolding allow
allow-limit key now rl = ground arith

pub allow-length :
    (key : String) (now n : ℕ) (rl : RateLimiter)
    → rl.limit ≡ pos n
    → (allow key now rl).0 ≡ true
    → 1 + length (recent now rl.window (rl.requests key)) ≤ n
unfolding allow
allow-length key now n rl h a = ground (arith, ap pos_part h)

-- A call for another key changes nothing of this one.
pub allow-other :
    (k key : String) (now : ℕ) (rl : RateLimiter)
    → str_eq key k ≡ false
    → (allow key now rl).1.requests k ≡ rl.requests k
unfolding allow
allow-other k key now rl h = ground arith

pub allow-refused :
    (key : String) (now : ℕ) (rl : RateLimiter)
    → (allow key now rl).0 ≡ false
    → (allow key now rl).1.requests key ≡ recent now rl.window (rl.requests key)
unfolding allow
allow-refused key now rl h = ground (arith, (eq_iff key key).1 refl)

pub allow-admitted :
    (key : String) (now : ℕ) (rl : RateLimiter)
    → (allow key now rl).0 ≡ true
    → (allow key now rl).1.requests key ≡ recent now rl.window (rl.requests key) ++ now ∷ []
unfolding allow
allow-admitted key now rl h = ground (arith, (eq_iff key key).1 refl)
