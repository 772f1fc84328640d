-- ===== src/Base/Slices.antt =====
-- Slices of lists, measured by native numbers.
use license_server_ai.Base.{
  ℕ, zero, suc, ◌+◌, ◌-◌, ◌≤◌, ◌≡◌, refl, sym, ap, ◌∙◌, List, [], ◌∷◌, ◌++◌, take, drop, length,
  arith, ltb, if◌then◌else◌, Bool-cases, inl, inr,
}

module _ {A : Type 0} where
  pub length-take_le : (n : ℕ) (xs : List A) → length (take n xs) ≤ n
  length-take_le zero xs = omega arith
  length-take_le (suc n) [] = omega arith
  length-take_le (suc n) (x ∷ xs) = omega (arith, length-take_le n xs)

  pub length-take : (n : ℕ) (xs : List A) → n ≤ length xs → length (take n xs) ≡ n
  length-take zero xs h = refl
  length-take (suc n) [] h = omega arith
  length-take (suc n) (x ∷ xs) h = omega (arith, length-take n xs)

  pub take_all : (n : ℕ) (xs : List A) → length xs ≤ n → take n xs ≡ xs
  take_all zero [] h = refl
  take_all zero (x ∷ xs) h = absurd (omega arith)
  take_all (suc n) [] h = refl
  take_all (suc n) (x ∷ xs) h = ap (λ ys. x ∷ ys) (take_all n xs (omega arith))

  pub drop_all : (n : ℕ) (xs : List A) → length xs ≤ n → drop n xs ≡ []
  drop_all zero [] h = refl
  drop_all zero (x ∷ xs) h = absurd (omega arith)
  drop_all (suc n) [] h = refl
  drop_all (suc n) (x ∷ xs) h = drop_all n xs (omega arith)

  -- The slice of a page does not depend on how much more was read.
  pub take-drop-take :
      (n o m : ℕ) (xs : List A) → n + o ≤ m → take n (drop o (take m xs)) ≡ take n (drop o xs)
  take-drop-take zero o m xs h = refl
  take-drop-take (suc n) o zero xs h = absurd (omega arith)
  take-drop-take (suc n) zero (suc m) [] h = refl
  take-drop-take (suc n) zero (suc m) (x ∷ xs) h =
      ap (λ ys. x ∷ ys) (take-drop-take n zero m xs (omega arith))
  take-drop-take (suc n) (suc o) (suc m) [] h = refl
  take-drop-take (suc n) (suc o) (suc m) (x ∷ xs) h = take-drop-take (suc n) o m xs (omega arith)

  pub take-append-drop : (n : ℕ) (xs : List A) → take n xs ++ drop n xs ≡ xs
  take-append-drop zero xs = refl
  take-append-drop (suc n) [] = refl
  take-append-drop (suc n) (x ∷ xs) = ap (λ ys. x ∷ ys) (take-append-drop n xs)

  pub drop-drop : (n o : ℕ) (xs : List A) → drop n (drop o xs) ≡ drop (o + n) xs
  drop-drop n zero xs = let e : 0 + n ≡ n = omega arith in rw e refl
  drop-drop n (suc o) (x ∷ xs) =
      let e : suc o + n ≡ suc (o + n) = omega arith in rw e (drop-drop n o xs)
  drop-drop n (suc o) [] = drop_all n [] (omega arith) ∙ sym (drop_all (suc o + n) [] (omega arith))

  -- A page and what comes after it.
  pub take-drop-append : (n o : ℕ) (xs : List A) → take n (drop o xs) ++ drop (o + n) xs ≡ drop o xs
  take-drop-append n o xs =
      ap (λ ys. take n (drop o xs) ++ ys) (sym (drop-drop n o xs)) ∙ take-append-drop n (drop o xs)

  pub length-drop : (o : ℕ) (xs : List A) → length (drop o xs) ≡ length xs - o
  length-drop zero xs = omega arith
  length-drop (suc o) [] = omega arith
  length-drop (suc o) (x ∷ xs) = omega (arith, length-drop o xs)

  -- The slice that a bound cuts out of a prefix that is longer by one, if there is so much.
  pub slice_of_prefix :
      (n o : ℕ) (all : List A)
      → let xs = take (n + o + 1) all in
        let end = if ltb (length xs) (o + n) then length xs else o + n in
        (if ltb o (length xs) then take (end - o) (drop o xs) else []) ≡ take n (drop o all)
  slice_of_prefix n o all = elim (Bool-cases (ltb (o + n) (length all))) [
    | inl more ↦ ground (arith, length-take (n + o + 1) all, take-drop-take n o (n + o + 1) all)
    | inr less ↦ ground (
      arith,
      take_all (n + o + 1) all,
      take_all (length all - o) (drop o all),
      take_all n (drop o all),
      length-drop o all,
      drop_all o all,
      take_all n [],
    )
  ]

  pub more_of_prefix :
      (n o : ℕ) (all : List A)
      → ltb (o + n) (length (take (n + o + 1) all)) ≡ ltb (o + n) (length all)
  more_of_prefix n o all = elim (Bool-cases (ltb (o + n) (length all))) [
    | inl more ↦ ground (arith, length-take (n + o + 1) all)
    | inr less ↦ ground (arith, take_all (n + o + 1) all)
  ]
