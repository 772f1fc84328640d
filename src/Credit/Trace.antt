-- ===== src/Credit/Trace.antt =====
-- Sequences of calls of internal/service/credit.go, each on the state that the one before it left.
-- A call may fail, and so may any statement of it.
use license_server_ai.Base.{ℕ, String, List, [], ◌∷◌}
use license_server_ai.Base.Int.{ℤ, pos, ltb_ℤ}
use license_server_ai.Database.Core.{Db, Tables}
use license_server_ai.Database.Statements.{updates_limit}
use license_server_ai.Database.Ends.{
  Ends, raises, Ends-if, Ends-bind, Ends-tables, updates_limit-Ends,
}
use license_server_ai.Credit.Accounts.{ensure_user, adjust_balance, reserve}
use license_server_ai.Credit.Tasks.{ReserveTaskInput, reserve_and_create_task}
use license_server_ai.Credit.Refunds.{refund_task, fail_task_and_refund}
use license_server_ai.Credit.Admin.{set_concurrent_limit}
use license_server_ai.Credit.Closed.{Closed}
use license_server_ai.Credit.Frames.{
  ensure_user-Ends, adjust_balance-Ends, reserve-Ends, reserve_and_create_task-Ends,
}
use license_server_ai.Credit.RefundFrames.{refund_task-Ends, fail_task_and_refund-Ends}
use license_server_ai.Credit.Ledger.{Integrity, Integrity-Closed, Exact, Integrity-Exact}
use license_server_ai.Credit.RefundOnce.{RefundedOnce, RefundedOnce-Closed}

-- A call with its arguments; `fail` also has the time at which it runs.
pub data Call : Type 0 where
  ensure : String → Call
  adjust : String → ℤ → String → String → Call
  reserve_points : String → ℤ → String → ℤ → Call
  reserve_task : ReserveTaskInput → Call
  refund_points : String → String → Call
  fail : String → String → String → ℕ → Call
  set_limit : String → ℤ → Call

unfoldable pub apply : Call → Db → Db
apply (ensure u) d = (ensure_user u d).1
apply (adjust u amount operator note) d = (adjust_balance u amount operator note d).1
apply (reserve_points u cost id rule) d = (reserve u cost id rule d).1
apply (reserve_task input) d = (reserve_and_create_task input d).1
apply (refund_points id note) d = (refund_task id note d).1
apply (fail id reason note now) d = (fail_task_and_refund id reason note now d).1
apply (set_limit u limit) d = (set_concurrent_limit u limit d).1

unfoldable pub run : List Call → Db → Db
run [] d = d
run (c ∷ cs) d = run cs (apply c d)

module _ (P : Tables → Type 0) (closed : Closed P) where
  set_concurrent_limit-Ends :
      (u : String) (limit : ℤ) (d : Db)
      → P d.tables
      → Ends (λ _. P) P (set_concurrent_limit u limit d)
  unfolding set_concurrent_limit
  set_concurrent_limit-Ends u limit d h =
      Ends-if (ltb_ℤ limit (pos 0)) _ _ d (λ _. raises h)
        λ _.
          Ends-bind (λ _. P) (ensure_user u) (λ _. updates_limit u limit) d
            (ensure_user-Ends P closed.created u d h)
            (λ _ d' h'. updates_limit-Ends u limit d' (closed.limited u limit d'.tables h') h')

  apply-keeps : (c : Call) (d : Db) → P d.tables → P (apply c d).tables
  unfolding apply
  apply-keeps (ensure u) d h = Ends-tables (ensure_user-Ends P closed.created u d h)
  apply-keeps (adjust u amount operator note) d h =
      Ends-tables (adjust_balance-Ends P closed u amount operator note d h)
  apply-keeps (reserve_points u cost id rule) d h =
      Ends-tables (reserve-Ends P closed u cost id rule d h)
  apply-keeps (reserve_task input) d h =
      Ends-tables (reserve_and_create_task-Ends P closed input d h)
  apply-keeps (refund_points id note) d h = Ends-tables (refund_task-Ends P closed id note d h)
  apply-keeps (fail id reason note now) d h =
      Ends-tables (fail_task_and_refund-Ends P closed id reason note now d h)
  apply-keeps (set_limit u limit) d h = Ends-tables (set_concurrent_limit-Ends u limit d h)

  pub run-keeps : (cs : List Call) (d : Db) → P d.tables → P (run cs d).tables
  unfolding run
  run-keeps [] d h = h
  run-keeps (c ∷ cs) d h = run-keeps cs (apply c d) (apply-keeps c d h)

-- After any sequence of calls, in which any statements failed, every user's balance is the sum of
-- the amounts in the user's ledger, wrapped to 64 bits, if it was so before; where the sum is a
-- 64-bit number, the balance is the sum itself.
pub run-Integrity :
    (cs : List Call) (d : Db)
    → Integrity d.tables
    → Integrity (run cs d).tables × Exact (run cs d).tables
run-Integrity cs d h =
    let after = run-keeps Integrity Integrity-Closed cs d h in
    (after, Integrity-Exact (run cs d).tables after)

-- After any sequence of calls, in which any statements failed, no task has two refunds in the
-- ledger, if none had before.
pub run-RefundedOnce :
    (cs : List Call) (d : Db) → RefundedOnce d.tables → RefundedOnce (run cs d).tables
run-RefundedOnce = run-keeps RefundedOnce RefundedOnce-Closed
