-- ===== src/Sync/Unique.antt =====
-- Rows under unique identities: what a lookup finds after a row has been saved or appended.
use license_server_ai.Base.{
  ◌≤◌, ◌≡◌, refl, String, Bool, true, false, none, some, List, [], ◌∷◌, ◌++◌, find?, count_if,
  if◌then◌else◌, str_eq, eq_iff, arith,
}
use license_server_ai.Sync.Table.{save_by, find_id, UniqueIds}

module _ {A : Type 0} (id_of : A → String) where
  found-other_id :
      (p : A → Bool) (i : String) (x : A) (xs : List A)
      → find_id id_of i xs ≡ none
      → find? p xs ≡ some x
      → str_eq (id_of x) i ≡ false
  unfolding find_id
  found-other_id p i x [] u h = ground arith
  found-other_id p i x (y ∷ xs) u h = ground (arith, found-other_id p i x xs)

  -- A row that is found and saved is found again by a test that it still passes.
  pub find?-save_by_self :
      (p : A → Bool) (x y : A) (xs : List A)
      → UniqueIds id_of xs
      → find? p xs ≡ some x
      → id_of y ≡ id_of x
      → p y ≡ true
      → find? p (save_by id_of y xs) ≡ some y
  find?-save_by_self p x y [] u h e t = ground arith
  find?-save_by_self p x y (z ∷ xs) u h e t = ground (
    arith,
    find?-save_by_self p x y xs u.1,
    found-other_id p (id_of z) x xs u.0,
    eq_iff (id_of z) (id_of y),
    eq_iff (id_of x) (id_of z),
  )

  -- A test that the row passes neither before nor afterwards finds what it found.
  pub find?-save_by_other :
      (p q : A → Bool) (x y : A) (xs : List A)
      → UniqueIds id_of xs
      → find? p xs ≡ some x
      → id_of y ≡ id_of x
      → q x ≡ false
      → q y ≡ false
      → find? q (save_by id_of y xs) ≡ find? q xs
  find?-save_by_other p q x y [] u h e f g = ground arith
  find?-save_by_other p q x y (z ∷ xs) u h e f g = ground (
    arith,
    find?-save_by_other p q x y xs u.1,
    found-other_id p (id_of z) x xs u.0,
    eq_iff (id_of z) (id_of y),
    eq_iff (id_of x) (id_of z),
  )

  find_id-save_by :
      (i : String) (y : A) (xs : List A)
      → find_id id_of i xs ≡ none
      → str_eq (id_of y) i ≡ false
      → find_id id_of i (save_by id_of y xs) ≡ none
  unfolding find_id
  find_id-save_by i y [] h f = ground arith
  find_id-save_by i y (z ∷ xs) h f = ground (arith, find_id-save_by i y xs)

  pub save_by-UniqueIds :
      (y : A) (xs : List A) → UniqueIds id_of xs → UniqueIds id_of (save_by id_of y xs)
  unfolding find_id
  save_by-UniqueIds y [] u = (refl, tt)
  save_by-UniqueIds y (z ∷ xs) u = ground (
    arith,
    save_by-UniqueIds y xs u.1,
    find_id-save_by (id_of z) y xs u.0,
    eq_iff (id_of z) (id_of y),
    eq_iff (id_of y) (id_of z),
  )

  find_id-append :
      (i : String) (r : A) (xs : List A)
      → find_id id_of i xs ≡ none
      → str_eq (id_of r) i ≡ false
      → find_id id_of i (xs ++ r ∷ []) ≡ none
  unfolding find_id
  find_id-append i r [] h f = ground arith
  find_id-append i r (z ∷ xs) h f = ground (arith, find_id-append i r xs)

  pub append-UniqueIds :
      (r : A) (xs : List A)
      → find_id id_of (id_of r) xs ≡ none
      → UniqueIds id_of xs
      → UniqueIds id_of (xs ++ r ∷ [])
  unfolding find_id
  append-UniqueIds r [] h u = (refl, tt)
  append-UniqueIds r (z ∷ xs) h u = ground (
    arith,
    append-UniqueIds r xs,
    find_id-append (id_of z) r xs,
    eq_iff (id_of z) (id_of r),
    eq_iff (id_of r) (id_of z),
  )

  pub find?-append :
      (q : A → Bool) (r : A) (xs : List A)
      → find? q xs ≡ none
      → find? q (xs ++ r ∷ []) ≡ (if q r then some r else none)
  find?-append q r [] h = refl
  find?-append q r (z ∷ xs) h = ground (arith, find?-append q r xs)

  pub find?-append_other :
      (q : A → Bool) (r : A) (xs : List A) → q r ≡ false → find? q (xs ++ r ∷ []) ≡ find? q xs
  find?-append_other q r [] h = ground arith
  find?-append_other q r (z ∷ xs) h = ground (arith, find?-append_other q r xs)

  -- A row that is found and saved counts as it did.
  pub count_if-save_by :
      (p q : A → Bool) (x y : A) (xs : List A)
      → UniqueIds id_of xs
      → find? p xs ≡ some x
      → id_of y ≡ id_of x
      → q y ≡ q x
      → count_if q (save_by id_of y xs) ≡ count_if q xs
  count_if-save_by p q x y [] u h e f = ground arith
  count_if-save_by p q x y (z ∷ xs) u h e f = ground (
    arith,
    count_if-save_by p q x y xs u.1,
    found-other_id p (id_of z) x xs u.0,
    eq_iff (id_of z) (id_of y),
    eq_iff (id_of x) (id_of z),
  )

  pub count_if_zero : (q : A → Bool) (xs : List A) → find? q xs ≡ none → count_if q xs ≡ 0
  count_if_zero q [] h = refl
  count_if_zero q (z ∷ xs) h = ground (arith, count_if_zero q xs)

  -- A saved row that fails the test adds nothing.
  pub count_if-save_by_le :
      (q : A → Bool) (y : A) (xs : List A)
      → q y ≡ false
      → count_if q (save_by id_of y xs) ≤ count_if q xs
  count_if-save_by_le q y [] f = ground arith
  count_if-save_by_le q y (z ∷ xs) f = ground (arith, count_if-save_by_le q y xs f)
