-- ===== src/Base/Lists.antt =====
-- Lists measured by native numbers, under the library's names, and searches by a Boolean test.
use Prim.Native.Nat.{ℕ, zero, suc, ◌+◌, ◌≤◌}
use mathlib.Core.Path.{◌≡◌, refl, sym, ap, ◌∙◌}
use mathlib.Core.Logic.{◌⊎◌, inl, inr}
use mathlib.Core.Bool.{Bool, true, false}
use mathlib.Core.List.{List, [], ◌∷◌, ◌++◌}
use mathlib.Core.Option.{Option, none, some}
use native.Mathlib.Omega.{arith}
use license_server_ai.Base.Tests.{if◌then◌else◌, Bool-cases}

module _ {ℓ} {A : Type ℓ} where
  abbrev pub length : List A → ℕ
  length [] = 0
  length (x ∷ xs) = suc (length xs)

  -- The first element that passes the test.
  abbrev pub find? : (A → Bool) → List A → Option A
  find? p [] = none
  find? p (x ∷ xs) = if p x then some x else find? p xs

  -- How many elements pass the test.
  abbrev pub count_if : (A → Bool) → List A → ℕ
  count_if p [] = 0
  count_if p (x ∷ xs) = let rest = count_if p xs in if p x then suc rest else rest

  abbrev pub filter_if : (A → Bool) → List A → List A
  filter_if p [] = []
  filter_if p (x ∷ xs) = let rest = filter_if p xs in if p x then x ∷ rest else rest

  abbrev pub take : ℕ → List A → List A
  take zero xs = []
  take (suc n) [] = []
  take (suc n) (x ∷ xs) = x ∷ take n xs

  abbrev pub drop : ℕ → List A → List A
  drop zero xs = xs
  drop (suc n) [] = []
  drop (suc n) (x ∷ xs) = drop n xs

  pub length-append : (xs ys : List A) → length (xs ++ ys) ≡ length xs + length ys
  length-append [] ys = omega arith
  length-append (x ∷ xs) ys = omega (arith, length-append xs ys)

  pub count_if-append :
      (p : A → Bool) (xs ys : List A) → count_if p (xs ++ ys) ≡ count_if p xs + count_if p ys
  count_if-append p [] ys = omega arith
  count_if-append p (x ∷ xs) ys = ground (arith, count_if-append p xs ys)

  pub length-filter_if-le : (p : A → Bool) (xs : List A) → length (filter_if p xs) ≤ length xs
  length-filter_if-le p [] = omega arith
  length-filter_if-le p (x ∷ xs) = ground (arith, length-filter_if-le p xs)

  -- A place of an element in a list, with nothing truncated.
  pub data Mem (a : A) : List A → Type ℓ where
    here : {x : A} {xs : List A} → a ≡ x → Mem a (x ∷ xs)
    there : {x : A} {xs : List A} → Mem a xs → Mem a (x ∷ xs)

  Mem-if :
      (a x : A) (xs ys : List A) (b : Bool)
      → Mem a (if b then x ∷ xs else ys)
      → ((b ≡ true) × Mem a (x ∷ xs)) ⊎ ((b ≡ false) × Mem a ys)
  Mem-if a x xs ys true h = inl (refl, h)
  Mem-if a x xs ys false h = inr (refl, h)

  pub Mem-filter_if :
      (p : A → Bool) (a : A) (xs : List A) → Mem a (filter_if p xs) → Mem a xs × (p a ≡ true)
  Mem-filter_if p a [] h = elim h [ ]
  Mem-filter_if p a (x ∷ xs) h = elim (Mem-if a x (filter_if p xs) (filter_if p xs) (p x) h) [
    | inl (t, here e) ↦ (here e, ap p e ∙ t)
    | inl (t, there m) ↦ let (n, q) = Mem-filter_if p a xs m in (there n, q)
    | inr (f, m) ↦ let (n, q) = Mem-filter_if p a xs m in (there n, q)
  ]

  pub filter_if-Mem :
      (p : A → Bool) (a : A) (xs : List A) → Mem a xs → p a ≡ true → Mem a (filter_if p xs)
  filter_if-Mem p a [] m h = elim m [ ]
  filter_if-Mem p a (x ∷ xs) (here e) h = rw (ap p (sym e) ∙ h) (here e)
  filter_if-Mem p a (x ∷ xs) (there m) h = elim (Bool-cases (p x)) [
    | inl t ↦ rw t (there (filter_if-Mem p a xs m h))
    | inr f ↦ rw f (filter_if-Mem p a xs m h)
  ]
