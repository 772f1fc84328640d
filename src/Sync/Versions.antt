-- ===== src/Sync/Versions.antt =====
-- The versions of one configuration entry under the pushes of internal/service/data_sync.go.
use mathlib.Core.Path.{subst}
use license_server_ai.Base.{
  ℕ, suc, ◌<◌, ◌^◌, ◌≡◌, refl, sym, ap, ◌∙◌, ◌⊎◌, inl, inr, String, Bool, true, false, not, ◌&&◌,
  Option, none, some, List, [], ◌∷◌, ◌++◌, find?, str_eq, eq_iff, arith,
}
use license_server_ai.Base.Int.{
  ℤ, pos, eqb_ℤ, eqb_ℤ_iff, ◌+ℤ◌, wrap64, wrap64-eq_of_IsInt64, int_laws,
}
use license_server_ai.Model.Sync.{Row, UserConfig, SyncConflict, SyncTables}
use license_server_ai.Database.Core.{Tables}
use license_server_ai.Sync.Rows.{
  PushItem, Env, SyncResult, PushStatus, success, Kind, owned_by, find_row, success_result, clashes,
  with_saved,
}
use license_server_ai.Sync.Push.{new_row, next_row, next_version}
use license_server_ai.Sync.Kinds.{config_kind, config_row}
use license_server_ai.Sync.Outcome.{Pushed, failed, nothing, inserted, replaced, conflicted}
use license_server_ai.Sync.Refusal.{put_conflict, pending_for}
use license_server_ai.Sync.Table.{save_by, find_id, UniqueIds}
use license_server_ai.Sync.Unique.{
  find?-save_by_self, find?-save_by_other, save_by-UniqueIds, append-UniqueIds, find?-append,
  find?-append_other,
}

abbrev pub IsUnique : List (Row UserConfig) → Type 0
IsUnique xs = UniqueIds (λ x. x.id) xs

clashes-find_id :
    {P : Type 0} (k : Kind P) (r : Row P) (xs : List (Row P))
    → find? (clashes k r) xs ≡ none
    → find_id (λ x. x.id) r.id xs ≡ none
unfolding find_id
clashes-find_id k r [] h = refl
clashes-find_id k r (z ∷ xs) h = ground (arith, clashes-find_id k r xs)

abbrev pub config_at : String → String → String → Row UserConfig → Bool
config_at u a key x = owned_by u a x && str_eq x.body.config_key key

abbrev pub version_of : Option (Row UserConfig) → ℤ
version_of none = pos 0
version_of (some x) = x.version

-- The stored version of an entry, 0 if there is none.
abbrev pub version_at : String → String → String → Tables → ℤ
version_at u a key t = version_of (find? (config_at u a key) t.sync.user_configs)

abbrev pub is_success : PushStatus → Bool
is_success success = true
is_success _ = false

module _ (u a key : String) where
  abbrev pub mine : Env → PushItem → Bool
  mine e item = str_eq e.user u && str_eq e.app a && str_eq item.data_key key

  -- The push wrote the entry, and says so: a deletion of nothing answers version 0.
  abbrev pub is_ack : Env → PushItem → SyncResult → Bool
  is_ack e item r =
      str_eq item.data_type "config"
      && mine e item
      && is_success r.push_status
      && not (eqb_ℤ r.server_version (pos 0))

  module _ (e : Env) (item : PushItem) where
    found-mine :
        (x : Row UserConfig) (xs : List (Row UserConfig))
        → find? (config_at e.user e.app item.data_key) xs ≡ some x
        → config_at e.user e.app item.data_key x ≡ true
    found-mine x [] h = ground arith
    found-mine x (z ∷ xs) h = ground (arith, found-mine x xs)

    same_test : mine e item ≡ true → config_at e.user e.app item.data_key ≡ config_at u a key
    same_test m = ground (arith, eq_iff e.user u, eq_iff e.app a, eq_iff item.data_key key)

    other_test :
        (x : Row UserConfig)
        → mine e item ≡ false
        → config_at e.user e.app item.data_key x ≡ true
        → config_at u a key x ≡ false
    other_test x m h = ground (
      arith,
      eq_iff e.user u,
      eq_iff e.app a,
      eq_iff item.data_key key,
      eq_iff x.user_id e.user,
      eq_iff x.app_id e.app,
      eq_iff x.body.config_key item.data_key,
      eq_iff x.user_id u,
      eq_iff x.app_id a,
      eq_iff x.body.config_key key,
    )

    -- One push more: an acknowledged one has the next version and was based on the one before, unless
    -- the entry is new; any other leaves the version alone.
    abbrev pub Stepped : ℕ → SyncResult → Tables → Type 0
    Stepped n r t =
        ((is_ack e item r ≡ false) × (version_at u a key t ≡ pos n))
        ⊎ ((is_ack e item r ≡ true)
            × (r.server_version ≡ pos (suc n))
            × ((n ≡ 0) ⊎ (item.local_version ≡ pos n))
            × (version_at u a key t ≡ pos (suc n)))

    next_version_lem :
        (x : Row UserConfig) (n : ℕ)
        → x.version ≡ pos n
        → suc n < 2 ^ 63
        → next_version config_kind e item x ≡ pos (suc n)
    next_version_lem x n h b =
        rw h (ap wrap64 one_more ∙ wrap64-eq_of_IsInt64 (pos (suc n)) (omega arith))
      where
        one_more : pos n +ℤ pos 1 ≡ pos (suc n)
        one_more = omega int_laws

    next_row-test :
        (r x : Row UserConfig) (v w key' : String)
        → config_at v w key' x ≡ config_at v w key' (next_row config_kind e item r x)
    next_row-test r x v w key' = ground arith

    next_row-id : (r x : Row UserConfig) → (next_row config_kind e item r x).id ≡ x.id
    next_row-id r x = ground arith

    next_row-version :
        (r x : Row UserConfig)
        → (next_row config_kind e item r x).version ≡ next_version config_kind e item x
    next_row-version r x = ground arith

    replaced-Stepped :
        (n : ℕ) (r x : Row UserConfig) (t : Tables)
        → str_eq item.data_type "config" ≡ true
        → IsUnique t.sync.user_configs
        → version_at u a key t ≡ pos n
        → suc n < 2 ^ 63
        → find? (config_at e.user e.app item.data_key) t.sync.user_configs ≡ some x
        → eqb_ℤ x.version item.local_version ≡ true
        → (answered : SyncResult) → answered.push_status ≡ success
        → answered.server_version ≡ next_version config_kind e item x
        → (m : Bool) → mine e item ≡ m
        → Stepped n answered (with_saved config_kind (next_row config_kind e item r x) t)
    replaced-Stepped n r x t c unique at b found fresh answered s v true m =
        let same = same_test m in
        let there : find? (config_at u a key) t.sync.user_configs ≡ some x = rw (← same) found in
        let version : x.version ≡ pos n = sym (ap version_of there) ∙ at in
        let next = next_version_lem x n version b in
        let kept : config_at u a key (next_row config_kind e item r x) ≡ true =
          sym (next_row-test r x u a key) ∙ sym (ap (λ p. p x) same) ∙ found-mine x _ found in
        inr (
          ground arith,
          v ∙ next,
          inr (sym ((eqb_ℤ_iff _ _).0 fresh) ∙ version),
          ap version_of (
                find?-save_by_self (λ x. x.id) (config_at u a key) x _ _ unique there
                  (next_row-id r x) kept)
              ∙ next_row-version r x
              ∙ next,
        )
    replaced-Stepped n r x t c unique at b found fresh answered s v false m =
        let off = other_test x m (found-mine x _ found) in
        inl (
          ground arith,
          ap version_of (
                find?-save_by_other (λ x. x.id) (config_at e.user e.app item.data_key)
                  (config_at u a key) x _ _ unique found (next_row-id r x) off
                  (sym (next_row-test r x u a key) ∙ off))
              ∙ at,
        )

    inserted-Stepped :
        (n : ℕ) (r : Row UserConfig) (t : Tables)
        → str_eq item.data_type "config" ≡ true
        → version_at u a key t ≡ pos n
        → config_at e.user e.app item.data_key r ≡ true
        → find? (config_at e.user e.app item.data_key) t.sync.user_configs ≡ none
        → r.version ≡ pos 1
        → (answered : SyncResult) → answered.push_status ≡ success
        → answered.server_version ≡ pos 1
        → (m : Bool) → mine e item ≡ m
        → Stepped n answered
            (record t { sync = record t.sync { user_configs = t.sync.user_configs ++ r ∷ [] } })
    inserted-Stepped n r t c at named absent first answered s v true m =
        let same = same_test m in
        let free : find? (config_at u a key) t.sync.user_configs ≡ none =
          ap (λ p. find? p t.sync.user_configs) (sym same) ∙ absent in
        let zero_before : pos 0 ≡ pos n = sym (ap version_of free) ∙ at in
        let none_before : n ≡ 0 = cc in
        let found : config_at u a key r ≡ true = sym (ap (λ p. p r) same) ∙ named in
        let one : pos 1 ≡ pos (suc n) = ap (λ i. pos (suc i)) (sym none_before) in
        inr (
          ground arith,
          v ∙ one,
          inl none_before,
          ap version_of (find?-append (λ x. x.id) (config_at u a key) r _ free)
              ∙ rw found (first ∙ one),
        )
    inserted-Stepped n r t c at named absent first answered s v false m = inl (
      ground arith,
      ap version_of (find?-append_other (λ x. x.id) (config_at u a key) r _ (other_test r m named))
          ∙ at,
    )

    -- What a push keeps and does, for the entry.
    abbrev pub Kept : ℕ → SyncResult → Tables → Type 0
    Kept n r t = IsUnique t.sync.user_configs × Stepped n r t

    put_conflict-configs :
        (v : ℤ) (text : String) (o : Option SyncConflict) (t : Tables)
        → (put_conflict e item v text o t).sync.user_configs ≡ t.sync.user_configs
    put_conflict-configs v text none t = refl
    put_conflict-configs v text (some c) t = refl

    -- The configurations are as they were, and the push is not acknowledged as one of the entry.
    pub unchanged-Kept :
        (n : ℕ) (r : SyncResult) (t t' : Tables)
        → IsUnique t.sync.user_configs
        → version_at u a key t ≡ pos n
        → t'.sync.user_configs ≡ t.sync.user_configs
        → is_ack e item r ≡ false
        → Kept n r t'
    unchanged-Kept n r t t' unique at same other = (
      subst IsUnique (sym same) unique,
      inl (other, ap (λ xs. version_of (find? (config_at u a key) xs)) same ∙ at),
    )

    new_row_named :
        config_at e.user e.app item.data_key (new_row config_kind e item (config_row item)) ≡ true
    new_row_named =
        ground (arith, eq_iff e.user e.user, eq_iff e.app e.app, eq_iff item.data_key item.data_key)

    pub config-Kept :
        (n : ℕ) (t t' : Tables) (r : SyncResult)
        → str_eq item.data_type "config" ≡ true
        → IsUnique t.sync.user_configs
        → version_at u a key t ≡ pos n
        → suc n < 2 ^ 63
        → Pushed config_kind e item t r t'
        → Kept n r t'
    unfolding find_row
    config-Kept n t t' r c unique at b (failed _ bad) =
        unchanged-Kept n r t t unique at refl (ground arith)
    config-Kept n t t' r c unique at b (nothing row decoded absent deletes) =
        unchanged-Kept n (success_result item.data_key (pos 0)) t t unique at refl (ground arith)
    config-Kept n t t' r c unique at b (inserted row decoded absent creates free made) =
        let same : config_row item ≡ row = cc in
        (
          append-UniqueIds (λ x. x.id) (new_row config_kind e item row) _
              (clashes-find_id config_kind (new_row config_kind e item row) _ free) unique,
          inserted-Stepped n (new_row config_kind e item row) t c at
              (subst
                (λ x. config_at e.user e.app item.data_key (new_row config_kind e item x) ≡ true)
                same new_row_named)
              absent refl r refl refl _ refl,
        )
    config-Kept n t t' r c unique at b (replaced row x decoded found current next) = (
      save_by-UniqueIds (λ x. x.id) (next_row config_kind e item row x) _ unique,
      replaced-Stepped n row x t c unique at b found (ground arith) r refl refl _ refl,
    )
    config-Kept n t t' r c unique at b (conflicted row x answered decoded found refused s v i new) =
        unchanged-Kept n answered t
          (put_conflict e item x.version x.body.config_value (pending_for e item t) t) unique at
          (put_conflict-configs x.version x.body.config_value (pending_for e item t) t)
          (ground arith)

    -- The other kinds have other tables.
    pub other-Kept :
        {P : Type 0} (k : Kind P)
        → ((xs : List (Row P)) (ts : SyncTables)
            → (k.with_rows xs ts).user_configs ≡ ts.user_configs)
        → (n : ℕ) (t t' : Tables) (r : SyncResult) → str_eq item.data_type "config" ≡ false
        → IsUnique t.sync.user_configs
        → version_at u a key t ≡ pos n
        → Pushed k e item t r t'
        → Kept n r t'
    other-Kept k keeps n t t' r c unique at (failed r' bad) =
        unchanged-Kept n r t t unique at refl (ground arith)
    other-Kept k keeps n t t' r c unique at (nothing row decoded absent deletes) =
        unchanged-Kept n r t t unique at refl (ground arith)
    other-Kept k keeps n t t' r c unique at (inserted row decoded absent creates free made) =
        unchanged-Kept n r t
          (record t { sync = k.with_rows (k.rows t.sync ++ new_row k e item row ∷ []) t.sync })
          unique at (keeps (k.rows t.sync ++ new_row k e item row ∷ []) t.sync) (ground arith)
    other-Kept k keeps n t t' r c unique at (replaced row x decoded found current next) =
        unchanged-Kept n r t (with_saved k (next_row k e item row x) t) unique at
          (keeps (save_by (λ x. x.id) (next_row k e item row x) (k.rows t.sync)) t.sync)
          (ground arith)
    other-Kept k keeps n t t' r c unique at
          (conflicted row x answered decoded found refused s v i new) =
        unchanged-Kept n r t (put_conflict e item x.version (k.to_text x) (pending_for e item t) t)
          unique at (put_conflict-configs x.version (k.to_text x) (pending_for e item t) t)
          (ground arith)
