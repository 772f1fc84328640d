-- ===== src/Credit/Accounts.antt =====
-- internal/service/credit.go: the balances of users, and the ledger of their changes.
-- `now` is the time that the call reads from the clock.
use license_server_ai.Base.{String, Option, none, some, if◌then◌else◌, str_eq}
use license_server_ai.Base.Int.{ℤ, pos, ◌+ℤ◌, ◌-ℤ◌, neg_ℤ, ltb_ℤ, leb_ℤ, eqb_ℤ, wrap64}
use license_server_ai.Model.Credit.{UserCredit, CreditTransaction, adjust, consume}
use license_server_ai.Database.Core.{
  M, insufficient_balance, zero_amount, cost_not_positive, empty_task_id, pure, raise, transaction,
  ◌>>=◌, ◌>>◌,
}
use license_server_ai.Database.Statements.{
  first_credit, look_credit, save_credit, create_transaction,
}

abbrev pub new_credit : String → UserCredit
new_credit u = record {
  user_id = u;
  balance = pos 0;
  total_topup = pos 0;
  total_consumed = pos 0;
  concurrent_limit = pos 1;
}

unfoldable pub ensure_found : String → Option UserCredit → M UserCredit
ensure_found u (some row) = pure row
ensure_found u none = do save_credit (new_credit u); pure (new_credit u)

-- `EnsureUser`, and so `Get`.
unfoldable pub ensure_user : String → M UserCredit
unfolding ensure_found
ensure_user u = do row ← look_credit u; ensure_found u row

-- The row and the ledger entry that a change of the balance returns.
abbrev pub Change : Type 0
Change = UserCredit × CreditTransaction

unfoldable pub adjust_row : UserCredit → ℤ → UserCredit
adjust_row row amount = record row {
  balance = wrap64 (row.balance +ℤ amount);
  total_topup =
      if ltb_ℤ (pos 0) amount then wrap64 (row.total_topup +ℤ amount) else row.total_topup;
}

abbrev pub adjust_transaction : String → ℤ → String → String → UserCredit → CreditTransaction
adjust_transaction u amount operator note row = record {
  user_id = u;
  amount = amount;
  typ = adjust;
  task_id = "";
  rule_id = pos 0;
  balance_after = row.balance;
  operator_id = operator;
  note = note;
}

unfoldable pub adjust_body : String → ℤ → String → String → M Change
unfolding adjust_row
adjust_body u amount operator note = do
  row ← first_credit u
  if ltb_ℤ (wrap64 (row.balance +ℤ amount)) (pos 0) then raise insufficient_balance else do
    save_credit (adjust_row row amount)
    create_transaction (adjust_transaction u amount operator note (adjust_row row amount))
    pure (adjust_row row amount, adjust_transaction u amount operator note (adjust_row row amount))

-- `Adjust`.
unfoldable pub adjust_balance : String → ℤ → String → String → M Change
unfolding ensure_user adjust_body
adjust_balance u amount operator note =
    if eqb_ℤ amount (pos 0)
    then raise zero_amount
    else do ensure_user u; transaction (adjust_body u amount operator note)

unfoldable pub charge_row : UserCredit → ℤ → UserCredit
charge_row row cost = record row {
  balance = wrap64 (row.balance -ℤ cost);
  total_consumed = wrap64 (row.total_consumed +ℤ cost);
}

abbrev pub consume_transaction : String → ℤ → String → ℤ → UserCredit → CreditTransaction
consume_transaction u cost task_id rule_id row = record {
  user_id = u;
  amount = wrap64 (neg_ℤ cost);
  typ = consume;
  task_id = task_id;
  rule_id = rule_id;
  balance_after = row.balance;
  operator_id = "";
  note = "";
}

unfoldable pub reserve_body : String → ℤ → String → ℤ → M Change
unfolding charge_row
reserve_body u cost task_id rule_id = do
  row ← first_credit u
  if ltb_ℤ row.balance cost then raise insufficient_balance else do
    save_credit (charge_row row cost)
    create_transaction (consume_transaction u cost task_id rule_id (charge_row row cost))
    pure (charge_row row cost, consume_transaction u cost task_id rule_id (charge_row row cost))

-- `Reserve`.
unfoldable pub reserve : String → ℤ → String → ℤ → M Change
unfolding ensure_user reserve_body
reserve u cost task_id rule_id =
    if leb_ℤ cost (pos 0)
    then raise cost_not_positive
    else if str_eq task_id ""
    then raise empty_task_id
    else do ensure_user u; transaction (reserve_body u cost task_id rule_id)
