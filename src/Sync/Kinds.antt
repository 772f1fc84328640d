-- ===== src/Sync/Kinds.antt =====
-- The eight kinds of data of internal/service/data_sync.go: in what `pushConfig`, `pushWorkflow`,
-- `pushBatchTask`, `pushMaterial`, `pushPost`, `pushComment`, `pushCommentScript` and
-- `pushVoiceConfig` differ. JSON is a parameter: one decoder and one encoder for each kind of row.
pub mod Merges
pub mod Decoding
use license_server_ai.Base.{
  ℕ, String, Bool, true, false, not, ◌&&◌, ◌||◌, Option, none, some, List, [], ◌∷◌, if◌then◌else◌,
  str_eq, ◌==◌, find?,
}
use license_server_ai.Base.Int.{ℤ, pos, eqb_ℤ}
use license_server_ai.Model.Sync.{
  Row, UserConfig, UserWorkflow, UserBatchTask, UserMaterial, UserPost, UserComment,
  UserCommentScript, UserVoiceConfig,
}
use license_server_ai.Pricing.Text.{atoi}
use license_server_ai.Database.Core.{M, pure, ◌>>=◌}
use license_server_ai.Sync.Rows.{
  PushItem, Env, SyncResult, Kind, error_result, is_delete, unknown_type,
}
use license_server_ai.Sync.Table.{find_least}
use license_server_ai.Sync.Push.{push}
use Merges.{
  merge_workflow, merge_batch_task, merge_material, merge_post, merge_comment, merge_comment_script,
  merge_voice_config, workflow_defaults, batch_task_defaults, material_defaults, post_defaults,
  comment_script_defaults, voice_config_defaults, blank_workflow, blank_batch_task, blank_material,
  blank_post, blank_comment, blank_comment_script, blank_voice_config, blank_row,
}
use Decoding.{
  Json, decode_push_data, then_map, map_some, workflow_keyed, batch_task_keyed, id_keyed,
  material_keyed, voice_config_keyed, stale, stale_unless_zero, item_key, row_id,
}

-- `pushConfig` decodes nothing: the text of the item is the value.
abbrev pub config_row : PushItem → Row UserConfig
config_row item =
    blank_row (record { config_key = item.data_key; config_value = item.raw; is_encrypted = false })

abbrev pub config_kind : Kind UserConfig
config_kind = record {
  rows = λ t. t.user_configs;
  with_rows = λ xs t. record t { user_configs = xs };
  decode = λ item. some (config_row item);
  matches = λ item r x. str_eq x.body.config_key item.data_key;
  first_of = find?;
  same_key = λ a b. str_eq a.config_key b.config_key;
  refuses = stale;
  merge = λ a b. record b { config_value = a.config_value };
  defaults = λ a. a;
  answer_key = item_key;
  to_text = λ x. x.body.config_value;
}

module _ (json : Json) where
  abbrev pub workflow_kind : Kind UserWorkflow
  workflow_kind = record {
    rows = λ t. t.user_workflows;
    with_rows = λ xs t. record t { user_workflows = xs };
    decode = λ item.
        map_some (workflow_keyed item)
          (decode_push_data (blank_row blank_workflow) json.decode_workflow item);
    matches = λ item r x. str_eq x.body.workflow_id item.data_key;
    first_of = find?;
    same_key = λ a b. str_eq a.workflow_id b.workflow_id;
    refuses = λ item v. not (is_delete item) && stale item v;
    merge = merge_workflow;
    defaults = workflow_defaults;
    answer_key = item_key;
    to_text = json.encode_workflow;
  }

  abbrev pub batch_task_kind : Kind UserBatchTask
  batch_task_kind = record {
    rows = λ t. t.user_batch_tasks;
    with_rows = λ xs t. record t { user_batch_tasks = xs };
    decode = λ item.
        map_some (batch_task_keyed item)
          (decode_push_data (blank_row blank_batch_task) json.decode_batch_task item);
    matches = λ item r x. str_eq x.body.task_id item.data_key;
    first_of = find?;
    same_key = λ a b. str_eq a.task_id b.task_id;
    refuses = stale;
    merge = merge_batch_task;
    defaults = batch_task_defaults;
    answer_key = item_key;
    to_text = json.encode_batch_task;
  }

  abbrev pub material_kind : Kind UserMaterial
  material_kind = record {
    rows = λ t. t.user_materials;
    with_rows = λ xs t. record t { user_materials = xs };
    decode = λ item.
        then_map (material_keyed item)
          (decode_push_data (blank_row blank_material) json.decode_material item);
    matches = λ item r x. eqb_ℤ x.body.material_id r.body.material_id;
    first_of = find?;
    same_key = λ a b. eqb_ℤ a.material_id b.material_id;
    refuses = stale;
    merge = merge_material;
    defaults = material_defaults;
    answer_key = item_key;
    to_text = json.encode_material;
  }

  -- A post is also found by its link and its group, where the item names both.
  abbrev pub post_matches : PushItem → Row UserPost → Row UserPost → Bool
  post_matches item r x =
      if not (str_eq r.body.post_link "") && not (str_eq r.body.group_name "")
      then str_eq x.id item.data_key
        || str_eq x.body.post_link r.body.post_link && str_eq x.body.group_name r.body.group_name
      else str_eq x.id item.data_key

  abbrev pub post_kind : Kind UserPost
  post_kind = record {
    rows = λ t. t.user_posts;
    with_rows = λ xs t. record t { user_posts = xs };
    decode = λ item.
        map_some (id_keyed item) (decode_push_data (blank_row blank_post) json.decode_post item);
    matches = post_matches;
    first_of = find_least (λ x. x.id);
    same_key = λ a b. false;
    refuses = stale_unless_zero;
    merge = merge_post;
    defaults = post_defaults;
    answer_key = row_id;
    to_text = json.encode_post;
  }

  abbrev pub comment_kind : Kind UserComment
  comment_kind = record {
    rows = λ t. t.user_comments;
    with_rows = λ xs t. record t { user_comments = xs };
    decode = λ item.
        map_some (id_keyed item)
          (decode_push_data (blank_row blank_comment) json.decode_comment item);
    matches = λ item r x. str_eq x.id item.data_key;
    first_of = find?;
    same_key = λ a b. false;
    refuses = stale_unless_zero;
    merge = merge_comment;
    defaults = λ a. a;
    answer_key = row_id;
    to_text = json.encode_comment;
  }

  abbrev pub comment_script_kind : Kind UserCommentScript
  comment_script_kind = record {
    rows = λ t. t.user_comment_scripts;
    with_rows = λ xs t. record t { user_comment_scripts = xs };
    decode = λ item.
        map_some (id_keyed item)
          (decode_push_data (blank_row blank_comment_script) json.decode_comment_script item);
    matches = λ item r x. str_eq x.id item.data_key;
    first_of = find?;
    same_key = λ a b. false;
    refuses = stale_unless_zero;
    merge = merge_comment_script;
    defaults = comment_script_defaults;
    answer_key = row_id;
    to_text = json.encode_comment_script;
  }

  abbrev pub voice_config_kind : Kind UserVoiceConfig
  voice_config_kind = record {
    rows = λ t. t.user_voice_configs;
    with_rows = λ xs t. record t { user_voice_configs = xs };
    decode = λ item.
        then_map (voice_config_keyed item)
          (decode_push_data (blank_row blank_voice_config) json.decode_voice_config item);
    matches = λ item r x. eqb_ℤ x.body.voice_id r.body.voice_id;
    first_of = find?;
    same_key = λ a b. eqb_ℤ a.voice_id b.voice_id;
    refuses = stale_unless_zero;
    merge = merge_voice_config;
    defaults = voice_config_defaults;
    answer_key = item_key;
    to_text = json.encode_voice_config;
  }

  -- `pushSingleItem`.
  unfoldable pub push_single_item : Env → PushItem → M SyncResult
  push_single_item e item =
      if str_eq item.data_type "config"
      then push config_kind e item
      else if str_eq item.data_type "workflow"
      then push workflow_kind e item
      else if str_eq item.data_type "batch_task"
      then push batch_task_kind e item
      else if str_eq item.data_type "material"
      then push material_kind e item
      else if str_eq item.data_type "post"
      then push post_kind e item
      else if str_eq item.data_type "comment"
      then push comment_kind e item
      else if str_eq item.data_type "comment_script"
      then push comment_script_kind e item
      else if str_eq item.data_type "voice_config"
      then push voice_config_kind e item
      else pure (error_result item unknown_type)

  -- `PushChanges`, with the clock and the fresh identities at each item; the items may come from
  -- several calls by several devices.
  unfoldable pub push_changes : List (Env × PushItem) → M (List SyncResult)
  push_changes [] = pure []
  push_changes ((e, item) ∷ rest) = do
    r ← push_single_item e item
    rs ← push_changes rest
    pure (r ∷ rs)
