-- ===== src/Pricing/Order.antt =====
-- The order of the pricing rules in the query of `MatchForTenant`, internal/service/pricing.go:
-- the rules are sorted, and none is lost.
use mathlib.Core.Path.{subst}
use license_server_ai.Base.{
  ◌≡◌, ap, ◌∙◌, true, false, List, [], ◌∷◌, if◌then◌else◌, ◌⊎◌, arith, Mem, here, there, Bool-cases,
  inl, inr,
}
use license_server_ai.Model.Pricing.{PricingRule}
use license_server_ai.Pricing.Rules.{before, insert, in_order}

-- A later rule may not come before the rule.
abbrev pub Sorted : List PricingRule → Type 0
Sorted [] = Unit
Sorted (r ∷ rs) = ((s : PricingRule) → Mem s rs → before s r ≡ false) × Sorted rs

pub before-later :
    (r s t : PricingRule) → before r s ≡ true → before t s ≡ false → before t r ≡ false
unfolding before
before-later r s t h k = ground arith

pub before-asym : (r s : PricingRule) → before r s ≡ true → before s r ≡ false
unfolding before
before-asym r s h = ground arith

pub before_irrefl : (r : PricingRule) → before r r ≡ false
unfolding before
before_irrefl r = ground arith

Mem-insert : (r s : PricingRule) (rs : List PricingRule) → Mem s (insert r rs) → (s ≡ r) ⊎ Mem s rs
unfolding insert
Mem-insert r s [] (here e) = inl e
Mem-insert r s [] (there m) = elim m [ ]
Mem-insert r s (t ∷ ts) h = elim (Bool-cases (before r t)) [
  | inl b ↦ at_front (subst (λ b'. Mem s (if b' then r ∷ t ∷ ts else t ∷ insert r ts)) b h)
  | inr b ↦
      at_back (λ m. Mem-insert r s ts m)
        (subst (λ b'. Mem s (if b' then r ∷ t ∷ ts else t ∷ insert r ts)) b h)
]
  where
    at_front : Mem s (r ∷ t ∷ ts) → (s ≡ r) ⊎ Mem s (t ∷ ts)
    at_front (here e) = inl e
    at_front (there m) = inr m

    at_back :
        (Mem s (insert r ts) → (s ≡ r) ⊎ Mem s ts)
        → Mem s (t ∷ insert r ts)
        → (s ≡ r) ⊎ Mem s (t ∷ ts)
    at_back rest (here e) = inr (here e)
    at_back rest (there m) = elim (rest m) [ inl e ↦ inl e | inr n ↦ inr (there n) ]

insert-Mem : (r s : PricingRule) (rs : List PricingRule) → (s ≡ r) ⊎ Mem s rs → Mem s (insert r rs)
unfolding insert
insert-Mem r s [] (inl e) = here e
insert-Mem r s [] (inr m) = elim m [ ]
insert-Mem r s (t ∷ ts) h = elim (Bool-cases (before r t)) [
  | inl b ↦ rw b (at_front h)
  | inr b ↦ rw b (at_back (λ m. insert-Mem r s ts m) h)
]
  where
    at_front : (s ≡ r) ⊎ Mem s (t ∷ ts) → Mem s (r ∷ t ∷ ts)
    at_front (inl e) = here e
    at_front (inr m) = there m

    at_back :
        ((s ≡ r) ⊎ Mem s ts → Mem s (insert r ts))
        → (s ≡ r) ⊎ Mem s (t ∷ ts)
        → Mem s (t ∷ insert r ts)
    at_back rest (inl e) = there (rest (inl e))
    at_back rest (inr (here e)) = here e
    at_back rest (inr (there m)) = there (rest (inr m))

insert-Sorted : (r : PricingRule) (rs : List PricingRule) → Sorted rs → Sorted (insert r rs)
unfolding insert
insert-Sorted r [] h = ((λ s m. elim m [ ]), tt)
insert-Sorted r (t ∷ ts) h = elim (Bool-cases (before r t)) [
  | inl b ↦ rw b ((λ s m. at_front b s m), h)
  | inr b ↦ rw b ((λ s m. at_back b s (Mem-insert r s ts m)), insert-Sorted r ts h.1)
]
  where
    at_front : before r t ≡ true → (s : PricingRule) → Mem s (t ∷ ts) → before s r ≡ false
    at_front b s (here e) = ap (λ x. before x r) e ∙ before-asym r t b
    at_front b s (there m) = before-later r t s b (h.0 s m)

    at_back : before r t ≡ false → (s : PricingRule) → (s ≡ r) ⊎ Mem s ts → before s t ≡ false
    at_back b s (inl e) = ap (λ x. before x t) e ∙ b
    at_back b s (inr m) = h.0 s m

pub in_order-Sorted : (rs : List PricingRule) → Sorted (in_order rs)
unfolding in_order
in_order-Sorted [] = tt
in_order-Sorted (r ∷ rs) = insert-Sorted r (in_order rs) (in_order-Sorted rs)

pub Mem-in_order : (s : PricingRule) (rs : List PricingRule) → Mem s (in_order rs) → Mem s rs
unfolding in_order
Mem-in_order s [] m = m
Mem-in_order s (r ∷ rs) m = elim (Mem-insert r s (in_order rs) m) [
  | inl e ↦ here e
  | inr n ↦ there (Mem-in_order s rs n)
]

pub in_order-Mem : (s : PricingRule) (rs : List PricingRule) → Mem s rs → Mem s (in_order rs)
unfolding in_order
in_order-Mem s [] m = m
in_order-Mem s (r ∷ rs) (here e) = insert-Mem r s (in_order rs) (inl e)
in_order-Mem s (r ∷ rs) (there m) = insert-Mem r s (in_order rs) (inr (in_order-Mem s rs m))
