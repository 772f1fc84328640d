-- ===== src/Sync/Changes.antt =====
-- What a client pulls, internal/service/data_sync.go: `GetChangesPage` and its queries. The order that
-- the database gives texts is a parameter, `collates`. The data of an item are left out.
use license_server_ai.Base.{
  ℕ, ◌+◌, ◌-◌, ◌/◌, ◌^◌, String, Bool, true, false, not, ◌&&◌, ◌||◌, Option, none, some, List, [],
  ◌∷◌, ◌++◌, map, filter_if, take, drop, length, if◌then◌else◌, str_eq, ltb, ◌==◌,
}
use license_server_ai.Base.Int.{ℤ, pos, negsuc, leb_ℤ}
use license_server_ai.Model.Sync.{Row}
use license_server_ai.Database.Core.{M, Tables, pure, raise, recover, ◌>>=◌, unknown_data_type}
use license_server_ai.Database.Statements.{read}
use license_server_ai.Sync.Rows.{owned_by}
use license_server_ai.Sync.Texts.{str_lt, format_int}

pub data SyncAction : Type 0 where
  update_action delete_action : SyncAction

pub record SyncItem : Type 0 where
  pub data_type : String
  pub data_key : String
  pub action : SyncAction
  pub version : ℤ
  pub updated_at : ℕ

pub record SyncChangesPage : Type 0 where
  pub items : List SyncItem
  pub has_more : Bool
  pub next_offset : ℕ
  pub limit : ℕ
  pub offset : ℕ

abbrev pub normal_limit : ℤ → ℕ
normal_limit (negsuc n) = 100
normal_limit (pos n) = if n == 0 then 100 else if ltb 500 n then 500 else n

abbrev pub normal_offset : ℤ → ℕ
normal_offset (negsuc n) = 0
normal_offset (pos n) = n

module _ {A : Type 0} (at_most : A → A → Bool) where
  insert_sorted : A → List A → List A
  insert_sorted x [] = x ∷ []
  insert_sorted x (y ∷ ys) = if at_most x y then x ∷ y ∷ ys else y ∷ insert_sorted x ys

  -- A stable sort.
  unfoldable pub sort_by : List A → List A
  unfolding insert_sorted
  sort_by [] = []
  sort_by (x ∷ xs) = insert_sorted x (sort_by xs)

abbrev action_of : Bool → SyncAction
action_of true = delete_action
action_of false = update_action

-- `UpdatedAt.Unix()`: whole seconds.
abbrev unix : ℕ → ℕ
unix time = time / 10 ^ 9

module _ {P : Type 0} (name : String) (key : Row P → String) where
  abbrev to_item : Row P → SyncItem
  to_item x = record {
    data_type = name;
    data_key = key x;
    action = action_of x.is_deleted;
    version = x.version;
    updated_at = unix x.updated_at;
  }

  -- The rows of a user that changed after `since`, in the order of the query, without its limit.
  unfoldable pub changes_in :
      (Row P → Row P → Bool) → String → String → ℕ → List (Row P) → List SyncItem
  changes_in key_at_most user app since rows =
      map to_item
        (sort_by at_most (filter_if (λ x. owned_by user app x && ltb since x.updated_at) rows))
    where
      at_most : Row P → Row P → Bool
      at_most x y = ltb x.updated_at y.updated_at || x.updated_at == y.updated_at && key_at_most x y

-- The order over all kinds, by the second, the kind and the key.
abbrev item_lt : SyncItem → SyncItem → Bool
item_lt a b =
    if a.updated_at == b.updated_at
    then (if str_eq a.data_type b.data_type
        then str_lt a.data_key b.data_key
        else str_lt a.data_type b.data_type)
    else ltb a.updated_at b.updated_at

abbrev all_kinds : List String
all_kinds =
    "config" ∷ "workflow" ∷ "batch_task" ∷ "material" ∷ "post" ∷ "comment" ∷ "comment_script"
    ∷ "voice_config" ∷ []

-- `items[offset:end]` and what goes with it.
unfoldable pub page_of : ℕ → ℕ → List SyncItem → SyncChangesPage
page_of limit offset items = record {
  items = page;
  has_more = more;
  next_offset = if more then offset + length page else 0;
  limit = limit;
  offset = offset;
}
  where
    end : ℕ
    end = if ltb (length items) (offset + limit) then length items else offset + limit

    page : List SyncItem
    page = if ltb offset (length items) then take (end - offset) (drop offset items) else []

    more : Bool
    more = ltb (offset + limit) (length items)

module _ (collates : String → String → Bool) (user app : String) (since : ℕ) where
  -- The changes of one named kind of data.
  unfoldable pub changes_of : String → Option (Tables → List SyncItem)
  changes_of kind =
      if str_eq kind "config"
      then some (λ t.
        changes_in "config" (λ x. x.body.config_key)
          (λ x y. collates x.body.config_key y.body.config_key) user app since t.sync.user_configs)
      else if str_eq kind "workflow"
      then some (λ t.
        changes_in "workflow" (λ x. x.body.workflow_id)
          (λ x y. collates x.body.workflow_id y.body.workflow_id) user app since
          t.sync.user_workflows)
      else if str_eq kind "batch_task"
      then some (λ t.
        changes_in "batch_task" (λ x. x.body.task_id)
          (λ x y. collates x.body.task_id y.body.task_id) user app since t.sync.user_batch_tasks)
      else if str_eq kind "material"
      then some (λ t.
        changes_in "material" (λ x. format_int x.body.material_id)
          (λ x y. leb_ℤ x.body.material_id y.body.material_id) user app since t.sync.user_materials)
      else if str_eq kind "post"
      then some (λ t.
        changes_in "post" (λ x. x.id) (λ x y. collates x.id y.id) user app since t.sync.user_posts)
      else if str_eq kind "comment"
      then some (λ t.
        changes_in "comment" (λ x. x.id) (λ x y. collates x.id y.id) user app since
          t.sync.user_comments)
      else if str_eq kind "comment_script"
      then some (λ t.
        changes_in "comment_script" (λ x. x.id) (λ x y. collates x.id y.id) user app since
          t.sync.user_comment_scripts)
      else if str_eq kind "voice_config"
      then some (λ t.
        changes_in "voice_config" (λ x. format_int x.body.voice_id)
          (λ x y. leb_ℤ x.body.voice_id y.body.voice_id) user app since t.sync.user_voice_configs)
      else none

  -- A query whose error is ignored: the list is then empty.
  unfoldable pub fetch : ℕ → (Tables → List SyncItem) → M (List SyncItem)
  fetch n changes = recover (read (λ t. take n (changes t))) []

  abbrev fetch_named : ℕ → Option (Tables → List SyncItem) → M (List SyncItem)
  fetch_named n none = raise unknown_data_type
  fetch_named n (some changes) = fetch n changes

  fetch_each : ℕ → List String → M (List SyncItem)
  unfolding changes_of
  fetch_each n [] = pure []
  fetch_each n (kind ∷ kinds) = do
    items ← fetch_named n (changes_of kind)
    rest ← fetch_each n kinds
    pure (items ++ rest)

  unfoldable pub fetch_all : ℕ → M (List SyncItem)
  unfolding fetch_each
  fetch_all n = do items ← fetch_each n all_kinds; pure (sort_by (λ a b. not (item_lt b a)) items)

  abbrev fetch_kind : String → ℕ → M (List SyncItem)
  fetch_kind kind n = if str_eq kind "" then fetch_all n else fetch_named n (changes_of kind)

  unfoldable pub get_changes_page : String → ℤ → ℤ → M SyncChangesPage
  get_changes_page kind limit offset = do
    items ← fetch_kind kind (normal_limit limit + normal_offset offset + 1)
    pure (page_of (normal_limit limit) (normal_offset offset) items)

  unfoldable pub get_changes : String → ℤ → M (List SyncItem)
  get_changes kind limit = do page ← get_changes_page kind limit (pos 0); pure page.items
