-- ===== src/Sync/Written.antt =====
-- The rows that a push of internal/service/data_sync.go writes, column by column.
use license_server_ai.Base.{◌≡◌, refl, Bool, true, false, if◌then◌else◌, str_eq}
use license_server_ai.Base.Int.{pos, ◌+ℤ◌, wrap64}
use license_server_ai.Model.Sync.{Row}
use license_server_ai.Sync.Rows.{PushItem, Env, Kind, is_delete}
use license_server_ai.Sync.Push.{new_row, next_row}

module _ {P : Type 0} (k : Kind P) (e : Env) (item : PushItem) where
  -- A new row, from the decoded one: version 1, of the owner, with the decoded data.
  pub record Made (r made : Row P) : Type 0 where
    pub version : made.version ≡ pos 1
    pub user : made.user_id ≡ e.user
    pub app : made.app_id ≡ e.app
    pub given_id : str_eq r.id "" ≡ false → made.id ≡ r.id
    pub new_id : str_eq r.id "" ≡ true → made.id ≡ e.new_id
    pub deleted : made.is_deleted ≡ r.is_deleted
    pub content : made.body ≡ k.defaults r.body

  -- The next version of a stored row: the same row and owner, written now, and either marked as
  -- deleted or with the decoded data merged in.
  pub record Next (r stored next : Row P) : Type 0 where
    pub version : next.version ≡ wrap64 (stored.version +ℤ pos 1)
    pub same_id : next.id ≡ stored.id
    pub same_user : next.user_id ≡ stored.user_id
    pub same_app : next.app_id ≡ stored.app_id
    pub same_creation : next.created_at ≡ stored.created_at
    pub updated : next.updated_at ≡ e.now
    pub deletes : is_delete item ≡ true → (next.is_deleted ≡ true) × (next.body ≡ stored.body)
    pub writes :
        is_delete item ≡ false
        → (next.is_deleted ≡ false) × (next.body ≡ k.merge r.body stored.body)

  pub new_row-Made : (r : Row P) → Made r (new_row k e item r)
  new_row-Made r = record {
    version = refl;
    user = refl;
    app = refl;
    given_id = λ h. rw h refl;
    new_id = λ h. rw h refl;
    deleted = refl;
    content = refl;
  }

  pub next_row-Next : (r x : Row P) → Next r x (next_row k e item r x)
  next_row-Next r x = go (is_delete item) refl
    where
      go :
          (b : Bool)
          → is_delete item ≡ b
          → Next r x (
              if b
              then record x {
                is_deleted = true;
                version = wrap64 (x.version +ℤ pos 1);
                updated_at = e.now;
              }
              else record x {
                body = k.merge r.body x.body;
                is_deleted = false;
                version = wrap64 (x.version +ℤ pos 1);
                updated_at = e.now;
              })
      go true h = record {
        version = refl;
        same_id = refl;
        same_user = refl;
        same_app = refl;
        same_creation = refl;
        updated = refl;
        deletes = λ _. (refl, refl);
        writes = λ no. cc;
      }
      go false h = record {
        version = refl;
        same_id = refl;
        same_user = refl;
        same_app = refl;
        same_creation = refl;
        updated = refl;
        deletes = λ yes. cc;
        writes = λ _. (refl, refl);
      }
