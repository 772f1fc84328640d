-- ===== src/Sync/Paging.antt =====
-- The pages of `GetChangesPage`, internal/service/data_sync.go, for one kind of data: a client that
-- follows them gets each change once.
use mathlib.Core.Path.{subst}
use license_server_ai.Base.{
  ℕ, zero, suc, ◌+◌, ◌<◌, ◌≡◌, refl, sym, ap, ◌∙◌, String, Bool, true, false, some, List, [], ◌++◌,
  take, drop, length, if◌then◌else◌, str_eq, ltb, arith, Bool-cases, inl, inr,
}
use license_server_ai.Base.Slices.{
  length-take, drop_all, take-drop-append, length-drop, slice_of_prefix, more_of_prefix,
}
use license_server_ai.Base.Int.{ℤ, pos}
use license_server_ai.Database.Core.{Db, Tables, M, pure, ◌>>=◌, ok}
use license_server_ai.Database.Statements.{read}
use license_server_ai.Database.Success.{
  Healthy, Succeeds, succeeds, send-Succeeds, recover-Succeeds, bind-Succeeds, Succeeds-result,
  Succeeds-mono, then-Succeeds, else-Succeeds,
}
use license_server_ai.Sync.Changes.{
  SyncItem, SyncChangesPage, changes_of, fetch, page_of, get_changes_page, normal_limit,
}

-- A client that asks for a page, and then for the next one as long as there is more; the fuel bounds
-- the number of its requests.
unfoldable pub follow :
    (String → String → Bool) → String → String → ℕ → String → ℤ → ℕ → ℕ → M (List SyncItem)
follow collates user app since kind limit zero offset = pure []
follow collates user app since kind limit (suc fuel) offset = do
  page ← get_changes_page collates user app since kind limit (pos offset)
  let rest : M (List SyncItem) = follow collates user app since kind limit fuel page.next_offset
  more ← if page.has_more then rest else pure []
  pure (page.items ++ more)

-- What a page has of all changes.
abbrev IsPage : ℕ → ℕ → List SyncItem → SyncChangesPage → Type 0
IsPage n o all p =
    (p.items ≡ take n (drop o all))
    × (p.has_more ≡ ltb (o + n) (length all))
    × (p.has_more ≡ true → p.next_offset ≡ o + n)

page_of-IsPage :
    (n o : ℕ) (all : List SyncItem) → IsPage n o all (page_of n o (take (n + o + 1) all))
unfolding page_of
page_of-IsPage n o all = (
  slice_of_prefix n o all,
  more_of_prefix n o all,
  λ more.
      let more' : ltb (o + n) (length all) ≡ true = sym (more_of_prefix n o all) ∙ more in
      rw more (
        ap (λ ys. o + length ys) (slice_of_prefix n o all)
        ∙ ground (arith, length-take n (drop o all), length-drop o all)),
)

module _ (collates : String → String → Bool) (user app : String) (since : ℕ) (kind : String)
    (limit : ℤ) where
  -- One page of a kind that has a name.
  get_changes_page-IsPage :
      (o : ℕ) (d : Db) (changes : Tables → List SyncItem)
      → Healthy d
      → str_eq kind "" ≡ false
      → changes_of collates user app since kind ≡ some changes
      → Succeeds
          (λ p t. IsPage (normal_limit limit) o (changes d.tables) p × (t ≡ d.tables))
          (get_changes_page collates user app since kind limit (pos o) d)
  unfolding get_changes_page fetch read
  get_changes_page-IsPage o d changes healthy named is_kind =
      bind-Succeeds
        (λ items t. (take (normal_limit limit + o + 1) (changes d.tables) ≡ items) × (t ≡ d.tables))
        _ _ d
        (else-Succeeds _ _ _ d named (
          rw is_kind
            (recover-Succeeds _ _ d (send-Succeeds _ d _ d.tables healthy refl (refl, refl)))))
        λ items d' h e. succeeds h (
          subst
              (λ xs.
                IsPage (normal_limit limit) o (changes d.tables)
                  (page_of (normal_limit limit) o xs))
              e.0 (page_of-IsPage (normal_limit limit) o (changes d.tables)),
          e.1,
        )

  normal_limit-pos : (z : ℤ) → 0 < normal_limit z
  normal_limit-pos z = ground arith

  follow-Succeeds :
      (fuel o : ℕ) (d : Db) (changes : Tables → List SyncItem)
      → Healthy d
      → str_eq kind "" ≡ false
      → changes_of collates user app since kind ≡ some changes
      → length (changes d.tables) < fuel + o
      → Succeeds
          (λ items t. (items ≡ drop o (changes d.tables)) × (t ≡ d.tables))
          (follow collates user app since kind limit fuel o d)
  unfolding follow
  follow-Succeeds zero o d changes healthy named is_kind b =
      succeeds healthy (sym (drop_all o (changes d.tables) (omega arith)), refl)
  follow-Succeeds (suc fuel) o d changes healthy named is_kind b =
      bind-Succeeds (λ p t. IsPage (normal_limit limit) o (changes d.tables) p × (t ≡ d.tables)) _ _
        d (get_changes_page-IsPage o d changes healthy named is_kind)
        λ p d1 h1 page.
          bind-Succeeds
            (λ more t. (more ≡ drop (o + normal_limit limit) (changes d.tables)) × (t ≡ d.tables)) _
            _ d1
            (rest p d1 h1 page (follow-Succeeds fuel p.next_offset d1 changes h1 named is_kind))
            λ more d2 h2 e. succeeds h2 (
              ap (λ xs. xs ++ more) page.0.0
                  ∙ ap (λ xs. take (normal_limit limit) (drop o (changes d.tables)) ++ xs) e.0
                  ∙ take-drop-append (normal_limit limit) o (changes d.tables),
              e.1,
            )
    where
      rest :
          (p : SyncChangesPage) (d1 : Db)
          → Healthy d1
          → IsPage (normal_limit limit) o (changes d.tables) p × (d1.tables ≡ d.tables)
          → (length (changes d1.tables) < fuel + p.next_offset
              → Succeeds
                  (λ items t. (items ≡ drop p.next_offset (changes d1.tables)) × (t ≡ d1.tables))
                  (follow collates user app since kind limit fuel p.next_offset d1))
          → Succeeds
              (λ more t. (more ≡ drop (o + normal_limit limit) (changes d.tables)) × (t ≡ d.tables))
              ((if p.has_more
                  then follow collates user app since kind limit fuel p.next_offset
                  else pure [])
                d1)
      rest p d1 h1 ((items, more, next), same) go = elim (Bool-cases p.has_more) [
        | inl yes' ↦
            let there : p.next_offset ≡ o + normal_limit limit = next yes' in
            let short : length (changes d1.tables) ≡ length (changes d.tables) =
              ap (λ t. length (changes t)) same in
            then-Succeeds _ _ _ d1 yes' (
              Succeeds-mono _
                (λ xs t e. (
                  e.0
                      ∙ ap (λ i. drop i (changes d1.tables)) there
                      ∙ ap (λ u. drop (o + normal_limit limit) (changes u)) same,
                  e.1 ∙ same,
                ))
                (go (omega (arith, b, there, short, normal_limit-pos limit))))
        | inr no' ↦
            let last : ltb (o + normal_limit limit) (length (changes d.tables)) ≡ false =
              sym more ∙ no' in
            else-Succeeds _ _ _ d1 no'
              (succeeds h1 (sym (drop_all _ (changes d.tables) (ground arith)), same))
      ]

-- A client that follows the pages of one kind of data, from the first on, gets every change of the
-- kind once and in the order of the query, when no statement fails and nothing is pushed meanwhile;
-- whatever limit it asks for, and if it asks as often as there are changes, and once more.
pub follow-changes :
    (collates : String → String → Bool) (user app : String) (since : ℕ) (kind : String) (limit : ℤ)
    (d : Db) (changes : Tables → List SyncItem)
    → Healthy d
    → str_eq kind "" ≡ false
    → changes_of collates user app since kind ≡ some changes
    → (follow collates user app since kind limit (length (changes d.tables) + 1) 0 d).0
      ≡ ok (changes d.tables)
follow-changes collates user app since kind limit d changes healthy named is_kind =
    let (items, done, _, e) = Succeeds-result (
      follow-Succeeds collates user app since kind limit (length (changes d.tables) + 1) 0 d changes
        healthy named is_kind (omega arith)) in
    done ∙ ap ok e.0
