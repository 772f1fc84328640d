-- ===== src/Sync/Resolve.antt =====
-- `ResolveConflict` of internal/service/data_sync.go.
use license_server_ai.Base.{ℕ, String, Bool, ◌&&◌, Option, none, some, find?, if◌then◌else◌, str_eq}
use license_server_ai.Model.Sync.{SyncConflict, resolved}
use license_server_ai.Database.Core.{
  M, pure, raise, send, transaction, ◌>>=◌, ◌>>◌, no_conflict, conflict_resolved, no_merged_data,
  bad_resolution, push_failed, conflict_again, apply_failed,
}
use license_server_ai.Database.Statements.{first}
use license_server_ai.License.Store.{failing_as}
use license_server_ai.Sync.Rows.{
  PushItem, Env, SyncResult, PushStatus, success, conflict, error, PushError,
}
use license_server_ai.Sync.Conflicts.{is_unresolved, save_conflict}
use license_server_ai.Sync.Kinds.{push_single_item}
use license_server_ai.Sync.Kinds.Decoding.{Json}

-- A request to resolve a conflict; "" stands for merged data that were not sent.
pub record Resolution : Type 0 where
  pub resolved_id : String
  pub way : String
  pub merged_data : String

abbrev pub is_conflict : Env → String → SyncConflict → Bool
is_conflict e id c =
    str_eq c.id id
    && str_eq c.user_id e.user
    && str_eq c.app_id e.app
    && str_eq c.device_id e.device

-- The conflict once it is resolved.
abbrev pub as_resolved : ℕ → String → SyncConflict → SyncConflict
as_resolved now way c = record c {
  resolution = way;
  resolved_at = some now;
  conflict_status = resolved;
}

-- The data that are pushed over the stored row, as if they were based on the version in conflict.
abbrev pub resolving_item : SyncConflict → String → PushItem
resolving_item c raw = record {
  data_type = c.data_type;
  data_key = c.data_key;
  action = "update";
  raw = raw;
  local_version = c.server_version;
}

abbrev pub resolving_env : Env → SyncConflict → Env
resolving_env e c = record e { user = c.user_id; app = c.app_id; device = c.device_id }

unfoldable pub accept_error : Option PushError → String → M (Unit {0})
accept_error (some _) id = raise push_failed
accept_error none id = if str_eq id "" then raise apply_failed else raise conflict_again

unfoldable pub accept_status : PushStatus → SyncResult → M (Unit {0})
accept_status success r = pure tt
accept_status conflict r = accept_error r.push_error r.conflict_id
accept_status error r = accept_error r.push_error r.conflict_id

-- Any answer but success is an error here, which rolls the transaction back.
abbrev pub accept : SyncResult → M (Unit {0})
accept r = accept_status r.push_status r

module _ (json : Json) (e : Env) (req : Resolution) where
  unfoldable pub apply_resolution : SyncConflict → String → SyncConflict → M (Unit {0})
  apply_resolution c raw c' = do
    r ← push_single_item json (resolving_env e c) (resolving_item c raw)
    accept r
    save_conflict c'

  unfoldable pub resolve_found : SyncConflict → M (Unit {0})
  resolve_found c =
      if is_unresolved c.conflict_status
      then (if str_eq req.way "use_local"
          then apply_resolution c c.local_data (as_resolved e.now req.way c)
          else if str_eq req.way "use_server"
          then save_conflict (as_resolved e.now req.way c)
          else if str_eq req.way "merge"
          then (if str_eq req.merged_data ""
              then raise no_merged_data
              else apply_resolution c req.merged_data
                  (record (as_resolved e.now req.way c) { resolved_data = req.merged_data }))
          else raise bad_resolution)
      else raise conflict_resolved

  unfoldable pub resolve_body : M (Unit {0})
  resolve_body = do
    c ←
        failing_as no_conflict
          (send (λ t. first t (find? (is_conflict e req.resolved_id) t.sync.sync_conflicts)))
    resolve_found c

  unfoldable pub resolve_conflict : M (Unit {0})
  resolve_conflict = transaction resolve_body
