-- ===== src/Lib.antt =====
-- A model of the licence server's core, with its theorems: credit accounts, pricing, generation
-- tasks, licences, synchronised data, limits and roles.
--
-- The server is written in Go. A client's request for a generation is priced by a rule
-- (internal/service/pricing.go), and its cost is reserved from the user's credit account when the
-- task is created; when the task fails the charge goes back (internal/service/credit.go). The data
-- are rows of a SQL database that the services reach through gorm (internal/model). A tenant's
-- team renews, suspends, resumes and revokes the licences of its customers
-- (internal/handler/license.go). A runner starts the tasks at upstream providers and polls them
-- (internal/service/async_runner.go), with the keys of internal/service/provider_credential.go.
--
-- Base         Boolean tests, lists and 64-bit integers over the native numbers: `wrap64` is the
--              wrap-around of Go's `int64` and `int`.
-- Model        The rows: Model/Credit for internal/model/user_credit.go, Model/Generation for
--              internal/model/generation_task.go, Model/Pricing for internal/model/pricing_rule.go,
--              Model/License for internal/model/license.go, Model/Device for
--              internal/model/device.go, Model/Sync for internal/model/user_data.go,
--              Model/Credential for internal/model/provider_credential.go.
-- Database     The database that gorm stands for. A `Db` has the tables, a plan of which statements
--              fail (any plan) and the number of statements sent; `M` is the monad of the services'
--              code, whose errors are values, and `transaction` brings the tables back when its
--              body or its COMMIT fails. Database/Ends has the rules by which postconditions are
--              proved, Database/Success those for calls in which no statement fails,
--              Database/Attempt those for errors that the caller looks at; Database/Steady: no call
--              changes the plan.
-- Credit       internal/service/credit.go. Accounts: `ensure_user` (EnsureUser, Get),
--              `adjust_balance` (Adjust), `reserve` (Reserve). Tasks: `reserve_and_create_task`
--              (ReserveAndCreateTask). Refunds: `refund_task` (Refund), `fail_task_and_refund`
--              (FailTaskAndRefund). Admin: the tenant checks, `set_concurrent_limit`
--              (SetConcurrentLimit) and `check_integrity` (CheckIntegrity). Each body of a
--              transaction is a definition of its own. Closed says what a call may do to the
--              tables, Frames and RefundFrames that each call does only that, Ledger, RefundOnce
--              and Trace draw the invariants from it; Charges, Repayment and Settlement
--              describe single calls.
-- Pricing      internal/service/pricing.go. Lexer and Parser: `next`, `parse_expr`, `parse_term`,
--              `parse_factor`, `eval_formula` (evalFormula), on texts that are lists of bytes;
--              Values: `to_int` (toInt). Grammar is an independent description of the formulas by a
--              syntax tree with a meaning and a printer; LexerLaws, Printed and RoundTrip compare
--              the two. Rules: `match_all`, `compute_cost`, `match_for_tenant` (matchAll,
--              computeCost, MatchForTenant); Order and Choice say which rule is chosen.
-- License      internal/handler/license.go over internal/model/license.go. Store: the table, and
--              the scope of an actor (scopedLicenseQuery of internal/handler/scope.go). Handlers:
--              `renew`, `revoke`, `suspend`, `resume`, `update`, `reset_unbind_count`, `delete`
--              (Renew, Revoke, Suspend, Resume, Update, ResetUnbindCount, Delete); a request that
--              cannot be decoded, and the answer's text, are left out. Life says, column by
--              column, what one step in the life of a licence is, Steps what a licence becomes by
--              steps, Keeps shows that each call follows them, Trace draws what holds after any
--              calls; Renewal describes a single call, Success two calls in a row. Times are
--              nanoseconds, a day is 24 hours.
-- Activation   the transaction of Activate, internal/handler/client.go, over
--              internal/model/device.go. Devices: the table of devices; Activate:
--              `activate_transaction` (the transaction in Activate), `update_device`
--              (updateClientDeviceForActivation), `restore_or_create`
--              (restoreDeletedLicenseDevice); Bound and Admission show which devices and licences
--              it lets in. The checks before the transaction (the application, device_blacklist)
--              and issueClientSession after it are left out.
-- Sync         internal/service/data_sync.go over internal/model/user_data.go. Table: rows under a
--              primary key. Rows: a push's item and result, and `Kind`, what the eight push
--              functions differ in; Push: the way they all go, `push`; Kinds: one `Kind` for each
--              function (with Kinds/Decoding and Kinds/Merges), `push_single_item`
--              (pushSingleItem), `push_changes` (PushChanges); Conflicts: `record_conflict`
--              (recordConflict), `conflict_result` (conflictResult); Resolve: `resolve_conflict`
--              (ResolveConflict); Checkpoints: `update_checkpoint`, `get_checkpoint`; Changes:
--              `get_changes_page` (GetChangesPage). Written, Refusal and Outcome say what a push comes to,
--              Dispatch carries that to all kinds; Versions and Acknowledged follow one entry
--              through pushes, Pending and Trace the pending conflicts; Accept and Applied are
--              about a resolution, Paging about a client that follows the pages, Resume about
--              checkpoints.
-- Credential   internal/service/provider_credential.go over internal/model/provider_credential.go.
--              Modes: `normalize_provider_credential_mode` (NormalizeProviderCredentialMode).
--              Selection: `select_for_tenant_excluding` (SelectForTenantExcluding),
--              `select_by_id_for_tenant_use` (SelectByIDForTenantUse), `get_credential` (Get),
--              `mark_health` (MarkHealth). Picks says which credential is chosen.
-- Async        internal/service/async_runner.go, over Credit and Credential, with
--              internal/adapter/errors.go. Upstream: the errors, and `Outside`. Start: `start_task`
--              (StartTask), its attempts and their retries; Saving: `finalize_succeeded`
--              (finalizeSucceeded); Failure: `fail_and_refund` (failTaskAndRefund),
--              `schedule_next_poll` (scheduleNextPoll); Poll: `poll_once` (PollOnce), `advance_one`
--              (advanceOne). Keeps has the rules for calls that keep a property of the tables,
--              Attempts and Frames apply them to every call, Trace to sequences of calls; Charge,
--              Fresh, Conclusion and PaidBack follow the points of one task; Saved, Due and Delay
--              describe a result's files, a batch and the time of a poll.
-- Limits       Rate, Counts, Window and Cleanup: the rate limiter of
--              internal/middleware/ratelimit.go, `allow` (Allow) and `cleanup`, on sequences of
--              requests and cleanups. Login, Lock and Sweep: the login limiters of
--              internal/service/login_limiter.go, `record_failure`, `record_success`,
--              `ip_record_success`, `is_locked`, `remaining_attempts`, `cleanup`.
-- Team         internal/model/team_member.go: `role_permissions` (RolePermissions),
--              `has_permission` (HasPermission) and the tests on roles; Inclusion compares the
--              roles.
--
-- Bounds and fuel. The parser's calls are bounded by 4 * length + 8 units of fuel, four for each
-- byte; Pricing/Fuel shows that this is enough for every text. Nothing else needs fuel.
--
-- Parameters. JSON, the order that the database gives texts (in Sync), `fmt.Sprint` and
-- floating-point numbers (in Pricing) are arguments of the definitions that use them; the
-- database's failures are a function that is not restricted. In Async an `Outside` stands for the
-- upstream adapters, the decryption of keys, the downloads and the file service (internal/adapter,
-- internal/service/generation_file.go, with the rows of generation_files), the random ids, the
-- column updated_at of the tasks and the clock: arbitrary functions, where they can change of the
-- number of statements sent so far.
--
-- Not modelled. Statements of concurrent transactions do not interleave: a call runs alone, so
-- that the row locks have no effect. Automatic time stamps (outside Sync), JSON columns and the
-- paged listings are left out. Of the client's calls only activation is here; of the
-- synchronisation its service, without the log and the statistics; of the runner not the notifier
-- and not the progress of a task, whose growth an answer of the upstream carries instead. Texts of
-- modes are ASCII. Subscriptions, the HTTP layer, the upstream adapters and the SDKs are outside
-- this library.
pub mod Base
pub mod Model
pub mod Database
pub mod Credit
pub mod Pricing
pub mod License
pub mod Activation
pub mod Sync
pub mod Credential
pub mod Async
pub mod Limits
pub mod Team
