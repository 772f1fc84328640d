-- ===== src/Model/Credit.antt =====
-- internal/model/user_credit.go: the balance of a user, and the ledger of its changes.
-- The automatic timestamps of a row are left out, since no decision reads them.
use license_server_ai.Base.{String}
use license_server_ai.Base.Int.{ℤ}

pub record UserCredit : Type 0 where
  pub user_id : String
  pub balance : ℤ  -- int64
  pub total_topup : ℤ  -- int64
  pub total_consumed : ℤ  -- int64
  pub concurrent_limit : ℤ  -- int

pub data TransactionTyp : Type 0 where
  adjust consume refund : TransactionTyp

-- The automatic `id` is the row's position in the table.
pub record CreditTransaction : Type 0 where
  pub user_id : String
  pub amount : ℤ  -- int64
  pub typ : TransactionTyp
  pub task_id : String
  pub rule_id : ℤ  -- int64
  pub balance_after : ℤ  -- int64
  pub operator_id : String
  pub note : String
