-- ===== src/Sync/Kinds/Merges.antt =====
-- What an update takes over from the pushed row, and what the columns' defaults put in the place of
-- zero values, for each kind of data of internal/service/data_sync.go.
use license_server_ai.Base.{ℕ, String, true, false, Option, none, some, if◌then◌else◌, str_eq, ◌==◌}
use license_server_ai.Base.Int.{ℤ, pos, eqb_ℤ}
use license_server_ai.Model.Sync.{
  Row, UserWorkflow, UserBatchTask, UserMaterial, UserPost, UserComment, UserCommentScript,
  UserVoiceConfig,
}

-- The zero values that decoding starts from.
abbrev pub blank_row : {P : Type 0} → P → Row P
blank_row b = record {
  id = "";
  created_at = 0;
  updated_at = 0;
  user_id = "";
  app_id = "";
  version = pos 0;
  is_deleted = false;
  body = b;
}

abbrev pub blank_workflow : UserWorkflow
blank_workflow = record {
  workflow_id = "";
  workflow_name = "";
  description = "";
  steps = "";
  status = "";
  current_step = pos 0;
  create_time = 0;
  start_time = none;
  end_time = none;
}

abbrev pub blank_batch_task : UserBatchTask
blank_batch_task = record {
  task_id = "";
  task_name = "";
  description = "";
  script_path = "";
  script_type = "";
  params = "";
  environments = "";
  env_config = "";
  status = "";
  concurrency = pos 0;
  total_count = pos 0;
  completed_count = pos 0;
  failed_count = pos 0;
  current_index = pos 0;
  close_on_complete = false;
  create_time = 0;
  start_time = none;
  end_time = none;
}

abbrev pub blank_material : UserMaterial
blank_material = record {
  material_id = pos 0;
  file_name = "";
  file_type = "";
  caption = "";
  group_name = "";
  status = "";
  local_path = "";
  cloud_file_id = "";
  file_size = pos 0;
  file_hash = "";
  used_at = none;
}

abbrev pub blank_post : UserPost
blank_post = record {
  post_type = "";
  group_name = "";
  post_link = "";
  post_id = "";
  shortcode = "";
  username = "";
  full_name = "";
  caption = "";
  media_type = "";
  like_count = pos 0;
  comment_count = pos 0;
  timestamp = none;
  status = "";
  collected_at = 0;
  used_at = none;
}

abbrev pub blank_comment : UserComment
blank_comment = record {
  group_name = "";
  post_link = "";
  post_id = "";
  comment_id = "";
  username = "";
  full_name = "";
  content = "";
  like_count = pos 0;
  timestamp = none;
  collected_at = 0;
}

abbrev pub blank_comment_script : UserCommentScript
blank_comment_script = record { group_name = ""; content = ""; use_count = pos 0; status = "" }

abbrev pub blank_voice_config : UserVoiceConfig
blank_voice_config = record {
  voice_id = pos 0;
  role = "";
  name = "";
  gpt_path = "";
  so_vits_path = "";
  ref_audio_path = "";
  ref_text = "";
  language = "";
  speed_factor = 0;
  tts_version = pos 0;
  enabled = false;
}

abbrev or_default : String → String → String
or_default s default = if str_eq s "" then default else s

abbrev or_integer : ℤ → ℤ → ℤ
or_integer n default = if eqb_ℤ n (pos 0) then default else n

abbrev pub workflow_defaults : UserWorkflow → UserWorkflow
workflow_defaults a = record a { status = or_default a.status "pending" }

abbrev pub batch_task_defaults : UserBatchTask → UserBatchTask
batch_task_defaults a = record a { concurrency = or_integer a.concurrency (pos 1) }

abbrev pub material_defaults : UserMaterial → UserMaterial
material_defaults a = record a { status = or_default a.status "未使用" }

abbrev pub post_defaults : UserPost → UserPost
post_defaults a = record a { status = or_default a.status "unused" }

abbrev pub comment_script_defaults : UserCommentScript → UserCommentScript
comment_script_defaults a = record a { status = or_default a.status "active" }

-- 1.0, unless the factor is 0.0 or -0.0.
abbrev speed : ℕ → ℕ
speed f =
    if f == 0 then 0x3FF0000000000000 else if f == 0x8000000000000000 then 0x3FF0000000000000 else f

-- The default of `enabled` is true, and so is the zero value false replaced.
abbrev pub voice_config_defaults : UserVoiceConfig → UserVoiceConfig
voice_config_defaults a = record a {
  language = or_default a.language "zh";
  speed_factor = speed a.speed_factor;
  tts_version = or_integer a.tts_version (pos 2);
  enabled = true;
}

abbrev pub merge_workflow : UserWorkflow → UserWorkflow → UserWorkflow
merge_workflow a b = record b {
  workflow_name = a.workflow_name;
  description = a.description;
  steps = a.steps;
  status = a.status;
  current_step = a.current_step;
  start_time = a.start_time;
  end_time = a.end_time;
}

abbrev pub merge_batch_task : UserBatchTask → UserBatchTask → UserBatchTask
merge_batch_task a b = record b {
  task_name = a.task_name;
  description = a.description;
  script_path = a.script_path;
  script_type = a.script_type;
  params = a.params;
  environments = a.environments;
  env_config = a.env_config;
  status = a.status;
  concurrency = a.concurrency;
  total_count = a.total_count;
  completed_count = a.completed_count;
  failed_count = a.failed_count;
  current_index = a.current_index;
  close_on_complete = a.close_on_complete;
  start_time = a.start_time;
  end_time = a.end_time;
}

abbrev pub merge_material : UserMaterial → UserMaterial → UserMaterial
merge_material a b = record b {
  file_name = a.file_name;
  file_type = a.file_type;
  caption = a.caption;
  group_name = a.group_name;
  status = a.status;
  local_path = a.local_path;
  used_at = a.used_at;
}

abbrev or_time : Option ℕ → Option ℕ → Option ℕ
or_time none old = old
or_time (some t) old = some t

-- A post keeps what the pushed one leaves empty.
abbrev pub merge_post : UserPost → UserPost → UserPost
merge_post a b = record b {
  post_type = or_default a.post_type b.post_type;
  group_name = or_default a.group_name b.group_name;
  post_link = or_default a.post_link b.post_link;
  post_id = or_default a.post_id b.post_id;
  shortcode = or_default a.shortcode b.shortcode;
  username = or_default a.username b.username;
  full_name = or_default a.full_name b.full_name;
  caption = or_default a.caption b.caption;
  media_type = or_default a.media_type b.media_type;
  like_count = or_integer a.like_count b.like_count;
  comment_count = or_integer a.comment_count b.comment_count;
  timestamp = or_time a.timestamp b.timestamp;
  status = or_default a.status b.status;
  collected_at = if a.collected_at == 0 then b.collected_at else a.collected_at;
  used_at = a.used_at;
}

abbrev pub merge_comment : UserComment → UserComment → UserComment
merge_comment a b = a

abbrev pub merge_comment_script : UserCommentScript → UserCommentScript → UserCommentScript
merge_comment_script a b = a

abbrev pub merge_voice_config : UserVoiceConfig → UserVoiceConfig → UserVoiceConfig
merge_voice_config a b = record a { voice_id = b.voice_id }
