-- ===== src/Sync/Kinds/Decoding.antt =====
-- How the push functions of internal/service/data_sync.go decode an item and complete its key.
use license_server_ai.Base.{
  codes, String, Bool, not, ◌&&◌, Option, none, some, if◌then◌else◌, str_eq,
}
use license_server_ai.Base.Int.{ℤ, pos, eqb_ℤ}
use license_server_ai.Model.Sync.{
  Row, UserWorkflow, UserBatchTask, UserMaterial, UserPost, UserComment, UserCommentScript,
  UserVoiceConfig,
}
use license_server_ai.Pricing.Text.{atoi}
use license_server_ai.Sync.Rows.{PushItem, is_delete}

-- encoding/json at the rows: `Unmarshal` into a row, and `Marshal`.
pub record Json : Type 0 where
  pub decode_workflow : String → Option (Row UserWorkflow)
  pub decode_batch_task : String → Option (Row UserBatchTask)
  pub decode_material : String → Option (Row UserMaterial)
  pub decode_post : String → Option (Row UserPost)
  pub decode_comment : String → Option (Row UserComment)
  pub decode_comment_script : String → Option (Row UserCommentScript)
  pub decode_voice_config : String → Option (Row UserVoiceConfig)
  pub encode_workflow : Row UserWorkflow → String
  pub encode_batch_task : Row UserBatchTask → String
  pub encode_material : Row UserMaterial → String
  pub encode_post : Row UserPost → String
  pub encode_comment : Row UserComment → String
  pub encode_comment_script : Row UserCommentScript → String
  pub encode_voice_config : Row UserVoiceConfig → String

-- `decodePushData`, into a row of zero values.
unfoldable pub decode_push_data :
    {P : Type 0} → Row P → (String → Option (Row P)) → PushItem → Option (Row P)
decode_push_data zero_row decode item =
    if str_eq item.raw "" then (if is_delete item then some zero_row else none) else decode item.raw

-- `parseInt64DataKey`: a code point above the digits is no digit, as its bytes are none.
unfoldable pub parse_int64 : String → Option ℤ
parse_int64 s = atoi (codes s)

-- The key of the item, where the decoded row has none.
abbrev or_key : String → PushItem → String
or_key key item = if str_eq key "" then item.data_key else key

abbrev or_number : ℤ → PushItem → Option ℤ
or_number n item = if eqb_ℤ n (pos 0) then parse_int64 item.data_key else some n

abbrev pub then_map : {A B : Type 0} → (A → Option B) → Option A → Option B
then_map f none = none
then_map f (some a) = f a

abbrev pub map_some : {A B : Type 0} → (A → B) → Option A → Option B
map_some f o = then_map (λ a. some (f a)) o

abbrev pub workflow_keyed : PushItem → Row UserWorkflow → Row UserWorkflow
workflow_keyed item r = record r {
  body = record r.body { workflow_id = or_key r.body.workflow_id item };
}

abbrev pub batch_task_keyed : PushItem → Row UserBatchTask → Row UserBatchTask
batch_task_keyed item r = record r { body = record r.body { task_id = or_key r.body.task_id item } }

abbrev pub id_keyed : {P : Type 0} → PushItem → Row P → Row P
id_keyed item r = record r { id = or_key r.id item }

abbrev pub material_keyed : PushItem → Row UserMaterial → Option (Row UserMaterial)
material_keyed item r =
    map_some (λ n. record r { body = record r.body { material_id = n } })
      (or_number r.body.material_id item)

abbrev pub voice_config_keyed : PushItem → Row UserVoiceConfig → Option (Row UserVoiceConfig)
voice_config_keyed item r =
    map_some (λ n. record r { body = record r.body { voice_id = n } })
      (or_number r.body.voice_id item)

abbrev pub stale : PushItem → ℤ → Bool
stale item v = not (eqb_ℤ v item.local_version)

-- A version 0 is taken as it is.
abbrev pub stale_unless_zero : PushItem → ℤ → Bool
stale_unless_zero item v = stale item v && not (eqb_ℤ item.local_version (pos 0))

abbrev pub item_key : {P : Type 0} → PushItem → Row P → String
item_key item x = item.data_key

abbrev pub row_id : {P : Type 0} → PushItem → Row P → String
row_id item x = x.id
