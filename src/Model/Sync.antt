-- ===== src/Model/Sync.antt =====
-- internal/model/user_data.go: the rows that clients synchronise, the conflicts and the checkpoints.
-- Times are nanoseconds, 0 for the zero time; a `float64` is its 64-bit pattern. The mark of a
-- deleted row (DeletedAt) is left out: nothing sets it on these tables.
use license_server_ai.Base.{ℕ, String, Bool, Option, List, []}
use license_server_ai.Base.Int.{ℤ}

-- The columns that every synchronised table has, with the rest of the row as `body`.
pub record Row (P : Type 0) : Type 0 where
  pub id : String
  pub created_at : ℕ
  pub updated_at : ℕ
  pub user_id : String
  pub app_id : String
  pub version : ℤ
  pub is_deleted : Bool
  pub body : P

pub record UserConfig : Type 0 where
  pub config_key : String
  pub config_value : String
  pub is_encrypted : Bool

pub record UserWorkflow : Type 0 where
  pub workflow_id : String
  pub workflow_name : String
  pub description : String
  pub steps : String
  pub status : String
  pub current_step : ℤ
  pub create_time : ℕ
  pub start_time : Option ℕ
  pub end_time : Option ℕ

pub record UserBatchTask : Type 0 where
  pub task_id : String
  pub task_name : String
  pub description : String
  pub script_path : String
  pub script_type : String
  pub params : String
  pub environments : String
  pub env_config : String
  pub status : String
  pub concurrency : ℤ
  pub total_count : ℤ
  pub completed_count : ℤ
  pub failed_count : ℤ
  pub current_index : ℤ
  pub close_on_complete : Bool
  pub create_time : ℕ
  pub start_time : Option ℕ
  pub end_time : Option ℕ

-- The source's second `CreatedAt` hides the one of the common columns, which `created_at` of the row is.
pub record UserMaterial : Type 0 where
  pub material_id : ℤ
  pub file_name : String
  pub file_type : String
  pub caption : String
  pub group_name : String
  pub status : String
  pub local_path : String
  pub cloud_file_id : String
  pub file_size : ℤ
  pub file_hash : String
  pub used_at : Option ℕ

pub record UserPost : Type 0 where
  pub post_type : String
  pub group_name : String
  pub post_link : String
  pub post_id : String
  pub shortcode : String
  pub username : String
  pub full_name : String
  pub caption : String
  pub media_type : String
  pub like_count : ℤ
  pub comment_count : ℤ
  pub timestamp : Option ℕ
  pub status : String
  pub collected_at : ℕ
  pub used_at : Option ℕ

pub record UserComment : Type 0 where
  pub group_name : String
  pub post_link : String
  pub post_id : String
  pub comment_id : String
  pub username : String
  pub full_name : String
  pub content : String
  pub like_count : ℤ
  pub timestamp : Option ℕ
  pub collected_at : ℕ

pub record UserCommentScript : Type 0 where
  pub group_name : String
  pub content : String
  pub use_count : ℤ
  pub status : String

pub record UserVoiceConfig : Type 0 where
  pub voice_id : ℤ
  pub role : String
  pub name : String
  pub gpt_path : String
  pub so_vits_path : String
  pub ref_audio_path : String
  pub ref_text : String
  pub language : String
  pub speed_factor : ℕ
  pub tts_version : ℤ
  pub enabled : Bool

pub data ConflictStatus : Type 0 where
  unresolved resolved : ConflictStatus

pub record SyncConflict : Type 0 where
  pub id : String
  pub user_id : String
  pub device_id : String
  pub app_id : String
  pub data_type : String
  pub data_key : String
  pub local_version : ℤ
  pub server_version : ℤ
  pub local_data : String
  pub server_data : String
  pub resolution : String
  pub resolved_data : String
  pub resolved_at : Option ℕ
  pub conflict_status : ConflictStatus

pub record SyncCheckpoint : Type 0 where
  pub user_id : String
  pub device_id : String
  pub app_id : String
  pub data_type : String
  pub last_sync_at : ℕ
  pub last_version : ℤ

pub record SyncTables : Type 0 where
  pub user_configs : List (Row UserConfig)
  pub user_workflows : List (Row UserWorkflow)
  pub user_batch_tasks : List (Row UserBatchTask)
  pub user_materials : List (Row UserMaterial)
  pub user_posts : List (Row UserPost)
  pub user_comments : List (Row UserComment)
  pub user_comment_scripts : List (Row UserCommentScript)
  pub user_voice_configs : List (Row UserVoiceConfig)
  pub sync_conflicts : List SyncConflict
  pub sync_checkpoints : List SyncCheckpoint

abbrev pub no_sync_tables : SyncTables
no_sync_tables = record {
  user_configs = [];
  user_workflows = [];
  user_batch_tasks = [];
  user_materials = [];
  user_posts = [];
  user_comments = [];
  user_comment_scripts = [];
  user_voice_configs = [];
  sync_conflicts = [];
  sync_checkpoints = [];
}
