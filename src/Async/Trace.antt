-- ===== src/Async/Trace.antt =====
-- Sequences of calls of internal/service/async_runner.go and of the credit service, on the state
-- that the one before left: the accounts stay right, whatever the upstreams answer.
use license_server_ai.Base.{List, [], ◌∷◌}
use license_server_ai.Database.Core.{Db, Tables}
use license_server_ai.Database.Ends.{Ends-tables}
use license_server_ai.Credit.Closed.{Closed}
use license_server_ai.Credit.Ledger.{Integrity, Integrity-Closed}
use license_server_ai.Credit.RefundOnce.{RefundedOnce, RefundedOnce-Closed}
use license_server_ai.Credit.Trace.{Call as CreditCall, run as run_credit, run-keeps}
use license_server_ai.Async.Upstream.{Outside, StartInput}
use license_server_ai.Async.Start.{start_task}
use license_server_ai.Async.Poll.{poll_once}
use license_server_ai.Async.Keeps.{FreeOfCredentials}
use license_server_ai.Async.Frames.{start_task-Keeps, poll_once-Keeps}

-- A call; each has an outside of its own.
pub data Call : Type 0 where
  start : Outside → StartInput → Call
  poll : Outside → Call
  credit : CreditCall → Call

unfoldable pub apply : Call → Db → Db
apply (start w input) d = (start_task w input d).1
apply (poll w) d = (poll_once w d).1
apply (credit c) d = run_credit (c ∷ []) d

unfoldable pub run : List Call → Db → Db
unfolding apply
run [] d = d
run (c ∷ cs) d = run cs (apply c d)

module _ (P : Tables → Type 0) (closed : Closed P) (free : FreeOfCredentials P) where
  apply-keeps : (c : Call) (d : Db) → P d.tables → P (apply c d).tables
  unfolding apply
  apply-keeps (start w input) d h = Ends-tables ((start_task-Keeps P closed free w input).kept d h)
  apply-keeps (poll w) d h = Ends-tables ((poll_once-Keeps P closed free w).kept d h)
  apply-keeps (credit c) d h = run-keeps P closed (c ∷ []) d h

  run-keeps_all : (cs : List Call) (d : Db) → P d.tables → P (run cs d).tables
  unfolding run
  run-keeps_all [] d h = h
  run-keeps_all (c ∷ cs) d h = run-keeps_all cs (apply c d) (apply-keeps c d h)

-- After any sequence of calls of StartTask, PollOnce and the credit service, whatever the upstreams
-- answer and whichever statements fail, every balance is the sum of its ledger (as a 64-bit
-- number) and no task has two refunds, if both were so before.
pub run-Sound :
    (cs : List Call) (d : Db)
    → Integrity d.tables
    → RefundedOnce d.tables
    → Integrity (run cs d).tables × RefundedOnce (run cs d).tables
run-Sound cs d sums once = (
  run-keeps_all Integrity Integrity-Closed (λ f t h. h) cs d sums,
  run-keeps_all RefundedOnce RefundedOnce-Closed (λ f t h. h) cs d once,
)
