-- ===== src/Limits/Window.antt =====
-- The rate limiter of internal/middleware/ratelimit.go never lets more than its limit through in a
-- window.
use mathlib.Core.Path.{subst}
use license_server_ai.Base.{
  ℕ, ◌+◌, ◌≤◌, ◌<◌, ◌≡◌, refl, sym, ap, ◌∙◌, String, true, List, [], ◌∷◌, arith, str_eq, ltb,
  Bool-cases, inl, inr, eq_iff,
}
use license_server_ai.Base.Int.{pos}
use license_server_ai.Limits.Rate.{
  RateLimiter, new_rate_limiter, recent, allow, cleanup, Event, request, clean, admitted,
}
use license_server_ai.Limits.Counts.{
  count, InOrder, count-length, count-recent_le, count-recent, count-append, count-admitted_zero,
  allow-window, allow-limit, allow-length, allow-other, allow-refused, allow-admitted,
}

-- What a limiter has of a key never counts more than the limit in a window.
abbrev pub Bounded : String → ℕ → RateLimiter → Type 0
Bounded k n rl = (t : ℕ) → count rl.window t (rl.requests k) ≤ n

module _ (k : String) (n : ℕ) where
  request-count :
      (now t : ℕ) (es : List Event) (rl : RateLimiter)
      → now ≤ t
      → str_eq k k ≡ true
      → count rl.window t (rl.requests k) + count rl.window t (admitted k rl (request k now ∷ es))
        ≡ count rl.window t ((allow k now rl).1.requests k)
          + count rl.window t (admitted k (allow k now rl).1 es)
  unfolding admitted
  request-count now t es rl later same = elim (Bool-cases (allow k now rl).0) [
    | inl a ↦ ground (
      arith,
      ap (count rl.window t) (allow-admitted k now rl a),
      count-append rl.window t (recent now rl.window (rl.requests k)) (now ∷ []),
      count-recent rl.window t now (rl.requests k) later,
    )
    | inr r ↦ ground (
      arith,
      ap (count rl.window t) (allow-refused k now rl r),
      count-recent rl.window t now (rl.requests k) later,
    )
  ]

  request-Bounded :
      (now : ℕ) (rl : RateLimiter)
      → str_eq k k ≡ true
      → rl.limit ≡ pos n
      → Bounded k n rl
      → (t : ℕ) → count rl.window t ((allow k now rl).1.requests k) ≤ n
  request-Bounded now rl same limit bounded t = elim (Bool-cases (allow k now rl).0) [
    | inl a ↦ ground (
      arith,
      ap (count rl.window t) (allow-admitted k now rl a),
      count-append rl.window t (recent now rl.window (rl.requests k)) (now ∷ []),
      count-length rl.window t (recent now rl.window (rl.requests k)),
      allow-length k now n rl limit a,
    )
    | inr r ↦ ground (
      arith,
      ap (count rl.window t) (allow-refused k now rl r),
      count-recent_le rl.window t now (rl.requests k),
      bounded t,
    )
  ]

  -- What follows a request of the key at or before the end of the window.
  same-key :
      (now t : ℕ) (es : List Event) (rl : RateLimiter)
      → now ≤ t
      → count rl.window t ((allow k now rl).1.requests k)
          + count rl.window t (admitted k (allow k now rl).1 es)
        ≤ n
      → count rl.window t (rl.requests k) + count rl.window t (admitted k rl (request k now ∷ es))
        ≤ n
  same-key now t es rl later h =
      let e = request-count now t es rl later ((eq_iff k k).1 refl) in omega arith

  -- A window that ends before the next event holds only what the limiter has.
  early-window :
      (t now : ℕ) (es : List Event) (rl : RateLimiter)
      → t < now
      → InOrder now es
      → Bounded k n rl
      → count rl.window t (rl.requests k) + count rl.window t (admitted k rl es) ≤ n
  early-window t now es rl early o bounded =
      let none_later = count-admitted_zero k rl.window t now es rl early o in
      let b = bounded t in omega arith

  -- The same facts, at a window that is equal.
  Bounded-window :
      (rl : RateLimiter) (w : ℕ)
      → rl.window ≡ w
      → ((t : ℕ) → count w t (rl.requests k) ≤ n)
      → Bounded k n rl
  Bounded-window rl w e h t = subst (λ w. count w t (rl.requests k) ≤ n) (sym e) (h t)

  of_window :
      (t : ℕ) (xs ys : List ℕ) (v w : ℕ)
      → v ≡ w
      → count v t xs + count v t ys ≤ n
      → count w t xs + count w t ys ≤ n
  of_window t xs ys v w e h = subst (λ w. count w t xs + count w t ys ≤ n) e h

  admitted-Total :
      (from : ℕ) (es : List Event) (rl : RateLimiter)
      → rl.limit ≡ pos n
      → InOrder from es
      → Bounded k n rl
      → (t : ℕ) → count rl.window t (rl.requests k) + count rl.window t (admitted k rl es) ≤ n
  unfolding admitted cleanup
  admitted-Total from [] rl limit o bounded t = let b = bounded t in omega arith
  admitted-Total from (clean now ∷ es) rl limit o bounded t = elim (Bool-cases (ltb t now)) [
    | inl early ↦ early-window t now (clean now ∷ es) rl (ground arith) (omega arith, o.1) bounded
    | inr late ↦
        let rest =
          admitted-Total now es (cleanup now rl) limit o.1
            (λ u.
              let le = count-recent_le rl.window u now (rl.requests k) in
              let b = bounded u in omega arith)
            t in
        let same = count-recent rl.window t now (rl.requests k) (ground arith) in omega arith
  ]
  admitted-Total from (request key now ∷ es) rl limit o bounded t = elim (Bool-cases (ltb t now)) [
    | inl early ↦
        early-window t now (request key now ∷ es) rl (ground arith) (omega arith, o.1) bounded
    | inr late ↦ elim (Bool-cases (str_eq key k)) [
      | inl same ↦
          subst
            (λ x.
              count rl.window t (rl.requests k)
                + count rl.window t (admitted k rl (request x now ∷ es))
              ≤ n)
            (sym ((eq_iff key k).0 same))
            (same-key now t es rl (ground arith) (
              of_window t ((allow k now rl).1.requests k) (admitted k (allow k now rl).1 es)
                (allow k now rl).1.window rl.window (allow-window k now rl)
                (admitted-Total now es (allow k now rl).1 (allow-limit k now rl ∙ limit) o.1
                  (Bounded-window (allow k now rl).1 rl.window (allow-window k now rl)
                    (request-Bounded now rl ((eq_iff k k).1 refl) limit bounded))
                  t)))
      | inr other ↦
          let before = ap (count rl.window t) (allow-other k key now rl other) in
          let rest =
            of_window t ((allow key now rl).1.requests k) (admitted k (allow key now rl).1 es)
              (allow key now rl).1.window rl.window (allow-window key now rl)
              (admitted-Total now es (allow key now rl).1 (allow-limit key now rl ∙ limit) o.1
                (Bounded-window (allow key now rl).1 rl.window (allow-window key now rl) (λ u.
                  subst (λ xs. count rl.window u xs ≤ n) (sym (allow-other k key now rl other))
                    (bounded u)))
                t) in
          ground (arith, before, rest)
    ]
  ]

-- A new limiter: whatever requests of whatever keys come, and whenever the map is cleaned, no window
-- holds more requests of a key that were let through than the limit, if the clock does not run
-- backwards and the limit is not negative.
pub run-AtMost :
    (k : String) (n window from : ℕ) (es : List Event)
    → InOrder from es
    → (t : ℕ) → count window t (admitted k (new_rate_limiter (pos n) window) es) ≤ n
run-AtMost k n window from es o t =
    let total =
      admitted-Total k n from es (new_rate_limiter (pos n) window) refl o (λ u. omega arith) t in
    omega arith
