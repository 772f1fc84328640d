-- ===== src/Credit/Ledger.antt =====
-- The ledger of internal/service/credit.go: the balance of each user is the sum of the user's
-- entries, whatever the operations were and whichever statements failed.
use license_server_ai.Base.{String, ◌≡◌, refl, sym, ◌∙◌, some, List, [], ◌∷◌, ◌++◌, arith, eq_iff}
use license_server_ai.Base.Int.{
  ℤ, ◌+ℤ◌, ◌-ℤ◌, neg_ℤ, wrap64, IsInt64, wrap64-eq_of_IsInt64, wrap64-+ℤ_left, wrap64-+ℤ_right,
  sub-eq-add_neg,
}
use license_server_ai.Model.Credit.{UserCredit, CreditTransaction}
use license_server_ai.Database.Core.{Tables}
use license_server_ai.Database.Tables.{
  find_credit, save_row, find_credit-save_row, find_credit-user_id, sum_of, sum_of-append,
  balance_of, balance_of-update_limit,
}
use license_server_ai.Credit.Accounts.{adjust_row, charge_row, new_credit}
use license_server_ai.Credit.Refunds.{refund_row}
use license_server_ai.Credit.Closed.{Closed}

-- Balances are 64-bit, and the sum of the entries is exact. A user without a row has balance 0.
abbrev pub Integrity : Tables → Type 0
Integrity t = (u : String) → balance_of u t.user_credits ≡ wrap64 (sum_of u t.credit_transactions)

-- Where the sum is a 64-bit number, the balance is the sum itself.
abbrev pub Exact : Tables → Type 0
Exact t =
    (u : String)
    → IsInt64 (sum_of u t.credit_transactions)
    → balance_of u t.user_credits ≡ sum_of u t.credit_transactions

pub Integrity-Exact : (t : Tables) → Integrity t → Exact t
Integrity-Exact t h u fits = h u ∙ wrap64-eq_of_IsInt64 _ fits

-- Saving a row and appending the entry of the same change keeps the sums right.
change-Integrity :
    (u : String) (rs : List UserCredit) (ts : List CreditTransaction) (row row' : UserCredit)
    (x : CreditTransaction)
    → find_credit x.user_id rs ≡ some row
    → row'.user_id ≡ row.user_id
    → row'.balance ≡ wrap64 (row.balance +ℤ x.amount)
    → balance_of u rs ≡ wrap64 (sum_of u ts)
    → balance_of u (save_row row' rs) ≡ wrap64 (sum_of u (ts ++ x ∷ []))
change-Integrity u rs ts row row' x found same moved before = ground (
  arith,
  find_credit-save_row u row' rs,
  sum_of-append u ts x,
  find_credit-user_id x.user_id rs row found,
  wrap64-+ℤ_left (sum_of u ts) x.amount,
  eq_iff row'.user_id u,
  eq_iff x.user_id u,
)

-- A charge subtracts the cost, and its entry adds the negated cost.
charge_amount : (b c : ℤ) → wrap64 (b -ℤ c) ≡ wrap64 (b +ℤ wrap64 (neg_ℤ c))
charge_amount b c = rw (sub-eq-add_neg b c) (sym (wrap64-+ℤ_right b (neg_ℤ c)))

pub Integrity-Closed : Closed Integrity
unfolding adjust_row charge_row refund_row
Integrity-Closed = record {
  created = λ u t h fresh v.
      ground (arith, h v, find_credit-save_row v (new_credit u) t.user_credits, eq_iff u v);
  adjusted = λ u amount operator note t row h found enough v.
      change-Integrity v t.user_credits t.credit_transactions row _ _ found refl refl (h v);
  charged = λ u cost task_id rule_id t row h found positive enough v.
      change-Integrity v t.user_credits t.credit_transactions row _ _ found refl
        (charge_amount row.balance cost) (h v);
  tasked = λ task t h fresh v. h v;
  paid_back = λ paid id note t row h unpaid paid_found found v.
      change-Integrity v t.user_credits t.credit_transactions row _ _ found refl refl (h v);
  limited = λ u limit t h v. balance_of-update_limit v u limit t.user_credits ∙ h v;
  updated = λ id f t h v. h v;
}
