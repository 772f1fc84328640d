-- ===== src/Database/Tables.antt =====
-- Searches and writes in a table, with the laws that the proofs use in place of the definitions.
use license_server_ai.Base.{
  ℕ, suc, String, ◌≡◌, refl, Bool, true, false, ◌&&◌, ◌||◌, Option, none, some, List, [], ◌∷◌, ◌++◌,
  arith, if◌then◌else◌, str_eq, eq_iff,
}
use license_server_ai.Base.Int.{ℤ, pos, ◌+ℤ◌, +ℤ_assoc, +ℤ_comm}
use license_server_ai.Model.Credit.{
  UserCredit, TransactionTyp, adjust, consume, refund, CreditTransaction,
}
use license_server_ai.Model.Generation.{GenerationStatus, GenerationTask, status_eq}

-- WHERE user_id = u, on the primary key.
unfoldable pub find_credit : String → List UserCredit → Option UserCredit
find_credit u [] = none
find_credit u (r ∷ rs) = if str_eq r.user_id u then some r else find_credit u rs

-- `Save`: update the row with this primary key, or insert it.
unfoldable pub save_row : UserCredit → List UserCredit → List UserCredit
save_row row [] = row ∷ []
save_row row (r ∷ rs) = if str_eq r.user_id row.user_id then row ∷ rs else r ∷ save_row row rs

pub find_credit-save_row :
    (u : String) (row : UserCredit) (rs : List UserCredit)
    → find_credit u (save_row row rs)
      ≡ (if str_eq row.user_id u then some row else find_credit u rs)
unfolding find_credit save_row
find_credit-save_row u row [] = refl
find_credit-save_row u row (r ∷ rs) = ground (
  arith,
  eq_iff r.user_id row.user_id,
  eq_iff r.user_id u,
  eq_iff row.user_id u,
  find_credit-save_row u row rs,
)

-- A row that was found has the key that was sought.
pub find_credit-user_id :
    (u : String) (rs : List UserCredit) (row : UserCredit)
    → find_credit u rs ≡ some row
    → row.user_id ≡ u
unfolding find_credit
find_credit-user_id u [] row h = ground arith
find_credit-user_id u (r ∷ rs) row h =
    ground (arith, eq_iff r.user_id u, find_credit-user_id u rs row)

-- SUM(amount) over the ledger of a user: exact, since SQL sums a BIGINT column as a decimal.
unfoldable pub sum_of : String → List CreditTransaction → ℤ
sum_of u [] = pos 0
sum_of u (t ∷ ts) = let rest = sum_of u ts in if str_eq t.user_id u then t.amount +ℤ rest else rest

pub sum_of-append :
    (u : String) (ts : List CreditTransaction) (t : CreditTransaction)
    → sum_of u (ts ++ t ∷ [])
      ≡ (if str_eq t.user_id u then sum_of u ts +ℤ t.amount else sum_of u ts)
unfolding sum_of
sum_of-append u [] t = ground (arith, +ℤ_comm (pos 0) t.amount)
sum_of-append u (s ∷ ts) t =
    ground (arith, sum_of-append u ts t, +ℤ_assoc s.amount (sum_of u ts) t.amount)

-- The balance of a user, 0 where there is no row yet.
abbrev pub balance_in : Option UserCredit → ℤ
balance_in none = pos 0
balance_in (some row) = row.balance

abbrev pub balance_of : String → List UserCredit → ℤ
balance_of u rs = balance_in (find_credit u rs)

abbrev pub typ_eq : TransactionTyp → TransactionTyp → Bool
typ_eq adjust adjust = true
typ_eq consume consume = true
typ_eq refund refund = true
typ_eq _ _ = false

-- WHERE task_id = t AND type = k.
abbrev pub of_task : String → TransactionTyp → CreditTransaction → Bool
of_task t k x = str_eq x.task_id t && typ_eq x.typ k

-- ORDER BY id ASC, First.
unfoldable pub find_transaction :
    String → TransactionTyp → List CreditTransaction → Option CreditTransaction
find_transaction t k [] = none
find_transaction t k (x ∷ xs) = if of_task t k x then some x else find_transaction t k xs

unfoldable pub count_transactions : String → TransactionTyp → List CreditTransaction → ℕ
count_transactions t k [] = 0
count_transactions t k (x ∷ xs) =
    let rest = count_transactions t k xs in if of_task t k x then suc rest else rest

pub count_transactions-append :
    (t : String) (k : TransactionTyp) (xs : List CreditTransaction) (x : CreditTransaction)
    → count_transactions t k (xs ++ x ∷ [])
      ≡ (if of_task t k x then suc (count_transactions t k xs) else count_transactions t k xs)
unfolding count_transactions
count_transactions-append t k [] x = refl
count_transactions-append t k (y ∷ xs) x = ground (arith, count_transactions-append t k xs x)

-- WHERE id = t, on the primary key.
unfoldable pub find_task : String → List GenerationTask → Option GenerationTask
find_task t [] = none
find_task t (x ∷ xs) = if str_eq x.id t then some x else find_task t xs

-- UPDATE … WHERE id = t.
unfoldable pub update_task :
    String → (GenerationTask → GenerationTask) → List GenerationTask → List GenerationTask
update_task t f [] = []
update_task t f (x ∷ xs) = (if str_eq x.id t then f x else x) ∷ update_task t f xs

-- COUNT of a user's tasks whose status is in the list.
abbrev pub status_in : List GenerationStatus → GenerationStatus → Bool
status_in [] s = false
status_in (x ∷ xs) s = status_eq x s || status_in xs s

unfoldable pub count_tasks : String → List GenerationStatus → List GenerationTask → ℕ
count_tasks u st [] = 0
count_tasks u st (x ∷ xs) =
    let rest = count_tasks u st xs in
    if str_eq x.user_id u && status_in st x.status then suc rest else rest

pub count_tasks-append :
    (u : String) (st : List GenerationStatus) (xs : List GenerationTask) (x : GenerationTask)
    → count_tasks u st (xs ++ x ∷ []) ≡ (
        if str_eq x.user_id u && status_in st x.status
        then suc (count_tasks u st xs)
        else count_tasks u st xs)
unfolding count_tasks
count_tasks-append u st [] x = refl
count_tasks-append u st (y ∷ xs) x = ground (arith, count_tasks-append u st xs x)

-- UPDATE … SET concurrent_limit = limit WHERE user_id = u.
abbrev pub set_limit : ℤ → UserCredit → UserCredit
set_limit limit row = record row { concurrent_limit = limit }

unfoldable pub update_limit : String → ℤ → List UserCredit → List UserCredit
update_limit u limit [] = []
update_limit u limit (r ∷ rs) =
    (if str_eq r.user_id u then set_limit limit r else r) ∷ update_limit u limit rs

pub balance_of-update_limit :
    (v u : String) (limit : ℤ) (rs : List UserCredit)
    → balance_of v (update_limit u limit rs) ≡ balance_of v rs
unfolding update_limit find_credit
balance_of-update_limit v u limit [] = refl
balance_of-update_limit v u limit (r ∷ rs) = ground (arith, balance_of-update_limit v u limit rs)

pub find_task-update_task :
    (id : String) (f : GenerationTask → GenerationTask) (xs : List GenerationTask)
    (x : GenerationTask)
    → ((y : GenerationTask) → (f y).id ≡ y.id)
    → find_task id xs ≡ some x
    → find_task id (update_task id f xs) ≡ some (f x)
unfolding find_task update_task
find_task-update_task id f [] x same h = ground arith
find_task-update_task id f (y ∷ xs) x same h =
    ground (arith, same y, find_task-update_task id f xs x same)
