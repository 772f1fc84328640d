-- ===== src/Credit/Refunds.antt =====
-- internal/service/credit.go, `Refund` and `FailTaskAndRefund`: what a failed task was charged goes
-- back, once. `now` is the time that the call reads from the clock.
use license_server_ai.Base.{
  ℕ, String, Bool, true, false, Option, none, some, if◌then◌else◌, ltb, str_eq,
}
use license_server_ai.Base.Int.{ℤ, pos, ◌+ℤ◌, ◌-ℤ◌, neg_ℤ, eqb_ℤ, wrap64}
use license_server_ai.Model.Credit.{UserCredit, CreditTransaction, consume, refund}
use license_server_ai.Model.Generation.{
  failed, GenerationTask, GenerationRefundStatus, unset, none_yet, refunded, skipped,
}
use license_server_ai.Database.Core.{
  M, task_already_refunded, consume_record_not_found, empty_task_id, pure, raise, recover,
  transaction, ◌>>=◌, ◌>>◌,
}
use license_server_ai.Database.Statements.{
  first_credit, save_credit, create_transaction, count_of_task, first_transaction, first_task,
  updates_task,
}
use license_server_ai.Credit.Accounts.{Change}
use license_server_ai.Credit.Tasks.{or_text}

unfoldable pub refund_row : UserCredit → ℤ → UserCredit
refund_row row amount = record row {
  balance = wrap64 (row.balance +ℤ amount);
  total_consumed = wrap64 (row.total_consumed -ℤ amount);
}

abbrev pub refund_transaction : CreditTransaction → String → UserCredit → CreditTransaction
refund_transaction paid note row = record {
  user_id = paid.user_id;
  amount = wrap64 (neg_ℤ paid.amount);
  typ = refund;
  task_id = paid.task_id;
  rule_id = paid.rule_id;
  balance_after = row.balance;
  operator_id = "";
  note = note;
}

-- The lock of the balance, the new balance and the ledger entry; both callers end with these.
unfoldable pub pay_back : CreditTransaction → String → M Change
unfolding refund_row
pay_back paid note = do
  row ← first_credit paid.user_id
  save_credit (refund_row row (wrap64 (neg_ℤ paid.amount)))
  create_transaction (refund_transaction paid note (refund_row row (wrap64 (neg_ℤ paid.amount))))
  pure (
    refund_row row (wrap64 (neg_ℤ paid.amount)),
    refund_transaction paid note (refund_row row (wrap64 (neg_ℤ paid.amount))),
  )

unfoldable pub pay_back_found : String → Option CreditTransaction → M Change
unfolding pay_back
pay_back_found note none = raise consume_record_not_found
pay_back_found note (some paid) = pay_back paid note

unfoldable pub refund_body : String → String → M Change
unfolding pay_back_found
refund_body task_id note = do
  existing ← count_of_task task_id refund
  if ltb 0 existing
      then raise task_already_refunded
      else do paid ← first_transaction task_id consume; pay_back_found note paid

-- `Refund`.
unfoldable pub refund_task : String → String → M Change
unfolding refund_body
refund_task task_id note =
    if str_eq task_id "" then raise empty_task_id else transaction (refund_body task_id note)

-- What `FailTaskAndRefund` finds out before it writes the task: the three local variables.
pub record Settlement : Type 0 where
  pub status : GenerationRefundStatus
  pub amount : ℤ
  pub at : Option ℕ

abbrev pub known_status : GenerationRefundStatus → GenerationRefundStatus
known_status unset = none_yet
known_status s = s

abbrev pub is_settled : GenerationRefundStatus → Bool
is_settled refunded = true
is_settled skipped = true
is_settled _ = false

abbrev pub or_now : Option ℕ → ℕ → Option ℕ
or_now none now = some now
or_now (some t) now = some t

abbrev pub amount_found : ℤ → Option CreditTransaction → ℤ
amount_found amount none = amount
amount_found amount (some tx) = tx.amount

unfoldable pub recorded_amount : String → ℤ → M ℤ
recorded_amount task_id amount =
    recover (do found ← first_transaction task_id refund; pure (amount_found amount found)) amount

unfoldable pub settle_existing : String → ℕ → Settlement → M Settlement
unfolding recorded_amount
settle_existing task_id now s = do
  amount ← (if eqb_ℤ s.amount (pos 0) then recorded_amount task_id s.amount else pure s.amount)
  pure (record { status = refunded; amount = amount; at = or_now s.at now })

unfoldable pub settle_paid : String → ℕ → Settlement → Option CreditTransaction → M Settlement
unfolding pay_back
settle_paid note now s none = pure (record s { status = skipped })
settle_paid note now s (some paid) = do
  pay_back paid note
  pure (record { status = refunded; amount = wrap64 (neg_ℤ paid.amount); at = some now })

unfoldable pub settle_open : String → String → ℕ → Settlement → M Settlement
unfolding settle_existing settle_paid
settle_open task_id note now s = do
  existing ← count_of_task task_id refund
  if ltb 0 existing
      then settle_existing task_id now s
      else do paid ← first_transaction task_id consume; settle_paid note now s paid

-- The local variables before anything is looked up.
abbrev pub recorded : GenerationTask → Settlement
recorded task = record {
  status = known_status task.refund_status;
  amount = task.refund_amount;
  at = task.refunded_at;
}

unfoldable pub settle : String → String → ℕ → GenerationTask → M Settlement
unfolding settle_open
settle task_id note now task =
    if is_settled (known_status task.refund_status)
    then pure (recorded task)
    else settle_open task_id note now (recorded task)

abbrev pub failed_task : String → ℕ → Settlement → GenerationTask → GenerationTask
failed_task reason now s task = record task {
  status = failed;
  upstream_error = reason;
  refund_status = s.status;
  refund_amount = s.amount;
  refunded_at = s.at;
  next_poll_at = none;
  completed_at = some now;
}

unfoldable pub fail_body : String → String → String → ℕ → M Settlement
unfolding settle
fail_body task_id reason note now = do
  task ← first_task task_id
  s ← settle task_id note now task
  updates_task task_id (failed_task reason now s)
  pure s

-- `FailTaskAndRefund`; its result also says whether the status is `refunded`.
unfoldable pub fail_task_and_refund : String → String → String → ℕ → M Settlement
unfolding fail_body
fail_task_and_refund task_id reason note now =
    if str_eq task_id ""
    then raise empty_task_id
    else transaction (fail_body task_id reason (or_text note reason) now)
