-- ===== src/Model/Generation.antt =====
-- internal/model/generation_task.go: the record of a generation task. Times are nanoseconds; a
-- `*time.Time` is an `Option`. Of the JSON columns only the reason of a failure is kept, and the
-- floating-point progress is left out.
use license_server_ai.Base.{ℕ, String, Bool, true, false, Option}
use license_server_ai.Base.Int.{ℤ}

pub data GenerationStatus : Type 0 where
  pending running succeeded failed canceled : GenerationStatus

-- `unset` is the empty string that an old row may hold.
pub data GenerationRefundStatus : Type 0 where
  unset none_yet refunded refund_failed skipped : GenerationRefundStatus

pub record GenerationTask : Type 0 where
  pub id : String
  pub user_id : String
  pub tenant_id : String
  pub status : GenerationStatus
  pub upstream_task_id : String
  pub credential_id : String
  pub rule_id : ℤ
  pub cost : ℤ
  pub created_at : ℕ
  pub next_poll_at : Option ℕ
  pub poll_interval : ℕ
  pub upstream_status : String
  pub upstream_error : String
  pub refund_status : GenerationRefundStatus
  pub refund_amount : ℤ
  pub refunded_at : Option ℕ
  pub completed_at : Option ℕ

abbrev pub status_eq : GenerationStatus → GenerationStatus → Bool
status_eq pending pending = true
status_eq running running = true
status_eq succeeded succeeded = true
status_eq failed failed = true
status_eq canceled canceled = true
status_eq _ _ = false
