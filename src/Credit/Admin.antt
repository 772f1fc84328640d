-- ===== src/Credit/Admin.antt =====
-- internal/service/credit.go: what an administrator does, within a tenant, and the check of the
-- ledger at start-up.
use license_server_ai.Base.{
  String, Bool, true, ◌&&◌, ◌||◌, List, [], ◌∷◌, if◌then◌else◌, str_eq, count_if, ◌==◌,
}
use license_server_ai.Base.Int.{ℤ, pos, ltb_ℤ, eqb_ℤ, wrap64}
use license_server_ai.Model.Credit.{UserCredit, CreditTransaction}
use license_server_ai.Database.Core.{
  M, Member, Customer, user_not_in_tenant, negative_limit, db_failure, pure, raise, ◌>>=◌, ◌>>◌,
}
use license_server_ai.Database.Tables.{sum_of}
use license_server_ai.Database.Statements.{read, updates_limit}
use license_server_ai.Credit.Accounts.{Change, ensure_user, adjust_balance}

-- WHERE id = ? AND tenant_id = ?.
abbrev pub is_member : String → String → Member → Bool
is_member user tenant m = str_eq m.id user && str_eq m.tenant_id tenant

abbrev pub is_customer : String → String → Customer → Bool
is_customer user tenant c = str_eq c.id user && str_eq c.tenant_id tenant

unfoldable pub ensure_user_in_tenant : String → String → M (Unit {0})
ensure_user_in_tenant user tenant =
    if str_eq user "" || str_eq tenant "" then raise user_not_in_tenant else do
      members ← read (λ t. count_if (is_member user tenant) t.team_members)
      customers ←
          (if members == 0
            then read (λ t. count_if (is_customer user tenant) t.customers)
            else pure members)
      if customers == 0 then raise user_not_in_tenant else pure tt

-- `GetForTenant` and `EnableForTenant`.
unfoldable pub get_for_tenant : String → String → M UserCredit
get_for_tenant user tenant = do ensure_user_in_tenant user tenant; ensure_user user

unfoldable pub adjust_for_tenant : String → String → ℤ → String → String → M Change
adjust_for_tenant user tenant amount operator note = do
  ensure_user_in_tenant user tenant
  adjust_balance user amount operator note

unfoldable pub set_concurrent_limit : String → ℤ → M (Unit {0})
set_concurrent_limit user limit =
    if ltb_ℤ limit (pos 0)
    then raise negative_limit
    else do ensure_user user; updates_limit user limit

unfoldable pub set_concurrent_limit_for_tenant : String → String → ℤ → M (Unit {0})
set_concurrent_limit_for_tenant user tenant limit = do
  ensure_user_in_tenant user tenant
  set_concurrent_limit user limit

pub record IntegrityIssue : Type 0 where
  pub user_id : String
  pub stored_balance : ℤ
  pub sum_of_tx_amount : ℤ

-- The rows of the query: HAVING balance <> SUM(amount).
unfoldable pub integrity_issues : List CreditTransaction → List UserCredit → List IntegrityIssue
integrity_issues ts [] = []
integrity_issues ts (r ∷ rs) =
    let rest = integrity_issues ts rs in
    if eqb_ℤ r.balance (sum_of r.user_id ts)
    then rest
    else record {
      user_id = r.user_id;
      stored_balance = r.balance;
      sum_of_tx_amount = sum_of r.user_id ts;
    }
      ∷ rest

-- `rows.Scan` of the issues: a sum that is no `int64` is an error.
abbrev all : {A : Type 0} → (A → Bool) → List A → Bool
all p [] = true
all p (x ∷ xs) = p x && all p xs

abbrev scan : List IntegrityIssue → M (List IntegrityIssue)
scan issues =
    if all (λ i. eqb_ℤ (wrap64 i.sum_of_tx_amount) i.sum_of_tx_amount) issues
    then pure issues
    else raise db_failure

-- `CheckIntegrity`.
unfoldable pub check_integrity : M (List IntegrityIssue)
check_integrity = do
  issues ← read (λ t. integrity_issues t.credit_transactions t.user_credits)
  scan issues
