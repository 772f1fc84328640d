-- ===== src/Limits/Cleanup.antt =====
-- The periodic cleanup of internal/middleware/ratelimit.go changes no later answer.
use license_server_ai.Base.{
  ℕ, ◌≤◌, ◌≡◌, refl, sym, ap, ◌∙◌, String, Bool, true, false, ◌&&◌, List, [], ◌∷◌, ◌++◌, arith,
  if◌then◌else◌, str_eq, length,
}
use license_server_ai.Base.Int.{ℤ, pos, leb_ℤ}
use license_server_ai.Limits.Rate.{
  RateLimiter, recent, put, allow, cleanup, Event, request, clean, admitted,
}
use license_server_ai.Limits.Counts.{InOrder}

-- Dropping what is old at one time and then at a later time drops what is old at the later time.
recent-recent :
    (w now later : ℕ) (xs : List ℕ)
    → now ≤ later
    → recent later w (recent now w xs) ≡ recent later w xs
recent-recent w now later [] h = refl
recent-recent w now later (x ∷ xs) h = ground (arith, recent-recent w now later xs h)

module _ (limit : ℤ) (w : ℕ) where
  abbrev at : (String → List ℕ) → RateLimiter
  at f = record { requests = f; limit = limit; window = w }

  -- The two maps have the same recent times from now on.
  abbrev Alike : ℕ → (String → List ℕ) → (String → List ℕ) → Type 0
  Alike from f g =
      (key : String) (now : ℕ) → from ≤ now → recent now w (f key) ≡ recent now w (g key)

  put-Alike :
      (from now : ℕ) (key : String) (xs : List ℕ) (f g : String → List ℕ)
      → from ≤ now
      → Alike from f g
      → Alike now (put key xs f) (put key xs g)
  put-Alike from now key xs f g h alike k later l =
      let below = alike k later (omega arith) in ground (arith, below)

  -- A request on both maps, whichever the answer is.
  either :
      (k : String) (now : ℕ) (key : String) (valid : List ℕ) (es : List Event)
      (f g : String → List ℕ)
      → admitted k (at (put key valid f)) es ≡ admitted k (at (put key valid g)) es
      → admitted k (at (put key (valid ++ now ∷ []) f)) es
        ≡ admitted k (at (put key (valid ++ now ∷ []) g)) es
      → (full : Bool)
      → let answer : (String → List ℕ) → Bool × RateLimiter = λ h.
        if full
        then (false, at (put key valid h))
        else (true, at (put key (valid ++ now ∷ []) h)) in
        (if (answer f).0 && str_eq key k
          then now ∷ admitted k (answer f).1 es
          else admitted k (answer f).1 es)
        ≡ (if (answer g).0 && str_eq key k
            then now ∷ admitted k (answer g).1 es
            else admitted k (answer g).1 es)
  either k now key valid es f g refused passed true = refused
  either k now key valid es f g refused passed false =
      ap (λ rest. if str_eq key k then now ∷ rest else rest) passed

  admitted-Alike :
      (k : String) (from : ℕ) (es : List Event) (f g : String → List ℕ)
      → InOrder from es
      → Alike from f g
      → admitted k (at f) es ≡ admitted k (at g) es
  unfolding admitted cleanup allow
  admitted-Alike k from [] f g o alike = refl
  admitted-Alike k from (clean now ∷ es) f g o alike =
      admitted-Alike k now es _ _ o.1 (λ key later h.
        recent-recent w now later (f key) h
        ∙ alike key later (omega arith)
        ∙ sym (recent-recent w now later (g key) h))
  admitted-Alike k from (request key now ∷ es) f g o alike =
      let valid = alike key now o.0 in
      let refused =
        admitted-Alike k now es (put key (recent now w (g key)) f)
          (put key (recent now w (g key)) g) o.1
          (put-Alike from now key (recent now w (g key)) f g o.0 alike) in
      let passed =
        admitted-Alike k now es (put key (recent now w (g key) ++ now ∷ []) f)
          (put key (recent now w (g key) ++ now ∷ []) g) o.1
          (put-Alike from now key (recent now w (g key) ++ now ∷ []) f g o.0 alike) in
      rw valid (
        either k now key (recent now w (g key)) es f g refused passed
          (leb_ℤ limit (pos (length (recent now w (g key))))))

-- A cleanup at a time at or before all later events changes nothing of which of their requests are
-- let through, for any key.
pub cleanup-admitted :
    (k : String) (now : ℕ) (es : List Event) (rl : RateLimiter)
    → InOrder now es
    → admitted k (cleanup now rl) es ≡ admitted k rl es
unfolding cleanup
cleanup-admitted k now es rl o =
    admitted-Alike rl.limit rl.window k now es _ rl.requests o
      (λ key later h. recent-recent rl.window now later (rl.requests key) h)
