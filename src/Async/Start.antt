-- ===== src/Async/Start.antt =====
-- internal/service/async_runner.go, `StartTask`: the task is charged and created, then the upstream
-- is asked to make it, with up to three credentials; where that fails, the charge goes back.
use license_server_ai.Base.{
  ℕ, zero, suc, ◌+◌, ◌/◌, String, Bool, ◌||◌, not, false, Option, none, some, List, [], ◌∷◌, ◌++◌,
  if◌then◌else◌, str_eq,
}
use license_server_ai.Base.Int.{ℤ, pos}
use license_server_ai.Model.Credential.{ProviderCredential, degraded, down}
use license_server_ai.Model.Generation.{GenerationTask, running, none_yet}
use license_server_ai.Database.Core.{
  M, Result, ok, err, missing_parameter, pricing_failed, adapter_not_found, create_failed,
  media_failed, pure, raise, recover, attempt, ◌>>=◌, ◌>>◌,
}
use license_server_ai.Database.Statements.{updates_task}
use license_server_ai.Credit.Tasks.{reserve_and_create_task}
use license_server_ai.Credential.Selection.{
  select_for_tenant_excluding, select_by_id_for_tenant_use, mark_health,
}
use license_server_ai.Async.Upstream.{
  Outside, StartInput, StartError, no_credential, undecryptable, empty_result, no_task_id,
  not_stored, all_failed, unsaved_media, create_error, CreateError, CreateResult, Created, answered,
  refused, create_error_is_network, create_error_needs_credential_retry,
  create_error_degrades_credential, create_error_marks_credential_down, ask,
}
use license_server_ai.Async.Failure.{fail_and_refund, async_initial_poll_delay, second}
use license_server_ai.Async.Saving.{finalize_succeeded}

pub record StartOutput : Type 0 where
  pub task_id : String
  pub cost : ℤ

-- What the attempts come to: the task is started, its media could not be saved, or `lastErr`.
pub data Attempts : Type 0 where
  started unsaved : Attempts
  gave_up : StartError → Attempts

-- The wait between two tries ends early where the request is cancelled.
abbrev waited : Option CreateError → Created → Created
waited none next = next
waited (some e) next = refused e

unfoldable pub retried : Created → Option CreateError → Created → Created
unfolding create_error_is_network
retried (answered r) interrupt next = answered r
retried (refused e) interrupt next =
    if create_error_is_network e then waited interrupt next else refused e

-- `createWithNetworkRetry`, with the tries that are left after this one.
unfoldable pub create_with_network_retry :
    Outside → ℕ → ℕ → ℕ → ProviderCredential → String → Created
unfolding retried
create_with_network_retry w n zero try cred body = w.create n try cred body
create_with_network_retry w n (suc left) try cred body =
    retried (w.create n try cred body) (w.interrupts n try)
      (create_with_network_retry w n left (suc try) cred body)

-- `selectCredentialForCreate`.
unfoldable pub select_credential_for_create :
    Outside → StartInput → List String → Option ProviderCredential → M ProviderCredential
unfolding select_for_tenant_excluding ask
select_credential_for_create w input excluded (some c) = pure c
select_credential_for_create w input excluded none = do
  now ← ask w.clock
  select_for_tenant_excluding now input.tenant_id input.provider input.mode excluded

-- What a successful `Create` leads to.
unfoldable pub after_created : Outside → String → String → List String → M Attempts
unfolding finalize_succeeded
after_created w id upstream_id (m ∷ ms) = do
  saved ← attempt (finalize_succeeded w id (m ∷ ms))
  elim saved [ ok _ ↦ pure started | err _ ↦ pure unsaved ]
after_created w id upstream_id [] = if str_eq upstream_id "" then pure (gave_up no_task_id) else do
  stored ← attempt (updates_task id (λ task. record task { upstream_task_id = upstream_id }))
  elim stored [ ok _ ↦ pure started | err _ ↦ pure (gave_up not_stored) ]

unfoldable pub after_create : Outside → String → Option CreateResult → M Attempts
unfolding after_created
after_create w id none = pure (gave_up empty_result)
after_create w id (some r) = after_created w id r.upstream_task_id r.media

-- The health that a failed `Create` leaves a credential with.
unfoldable pub mark_after : CreateError → ProviderCredential → M (Unit {0})
unfolding mark_health create_error_is_network create_error_degrades_credential
    create_error_marks_credential_down
mark_after e c =
    if create_error_is_network e
    then recover (mark_health c.id degraded) tt
    else if create_error_degrades_credential e
    then recover (mark_health c.id degraded) tt
    else if create_error_marks_credential_down e
    then recover (mark_health c.id down) tt
    else pure tt

-- After `Create`; `next` are the attempts that follow, without this credential.
unfoldable pub after_attempt :
    Outside → String → ProviderCredential → (StartError → M Attempts) → Created → M Attempts
unfolding after_create mark_after create_error_needs_credential_retry
after_attempt w id c next (answered r) = after_create w id r
after_attempt w id c next (refused e) =
    if not (create_error_needs_credential_retry e)
    then pure (gave_up (create_error e))
    else do mark_after e c; next (create_error e)

-- One attempt with the credential that was selected, if one was.
unfoldable pub attempt_with :
    Outside
    → StartInput
    → String
    → (ProviderCredential → StartError → M Attempts)
    → Result ProviderCredential
    → M Attempts
unfolding after_attempt create_with_network_retry ask
attempt_with w input id next (err e) = pure (gave_up (no_credential e))
attempt_with w input id next (ok c) = do
  recover (updates_task id (λ task. record task { credential_id = c.id })) tt
  if not (w.decrypts c) then next c undecryptable else do
    created ← ask (λ n. create_with_network_retry w n 1 1 c input.body)
    after_attempt w id c (next c) created

-- The loop over the attempts; `last` is the error of the one before.
unfoldable pub create_attempts :
    Outside
    → StartInput
    → String
    → Option ProviderCredential
    → ℕ
    → List String
    → StartError
    → M Attempts
unfolding attempt_with select_credential_for_create
create_attempts w input id fixed zero excluded last = pure (gave_up last)
create_attempts w input id fixed (suc left) excluded last = do
  c ← attempt (select_credential_for_create w input excluded fixed)
  attempt_with w input id
      (λ used e. create_attempts w input id fixed left (excluded ++ used.id ∷ []) e) c

abbrev async_create_max_attempts : ℕ
async_create_max_attempts = 3

abbrev pub attempts_for : StartInput → ℕ
attempts_for input = if str_eq input.credential_id "" then async_create_max_attempts else 1

-- The error of a query or an UPDATE may wrap one of the network.
unfoldable pub needs_retry : Outside → StartError → Bool
unfolding create_error_needs_credential_retry
needs_retry w (create_error e) = create_error_needs_credential_retry e
needs_retry w (no_credential e) = w.is_network_error (no_credential e)
needs_retry w not_stored = w.is_network_error not_stored
needs_retry w _ = false

-- The answer of `StartTask`, after a charge that has to go back where nothing was started.
unfoldable pub conclude : Outside → String → ℤ → Attempts → M StartOutput
unfolding fail_and_refund needs_retry
conclude w id cost started = pure (record { task_id = id; cost = cost })
conclude w id cost unsaved = do
  fail_and_refund w id (w.describe unsaved_media) "保存上游媒体失败"
  raise media_failed
conclude w id cost (gave_up e) = do
  fail_and_refund w id (w.describe e) (if needs_retry w e then "上游全部凭证失败" else "任务创建失败")
  raise create_failed

unfoldable pub fixed_credential : Outside → StartInput → M (Option ProviderCredential)
unfolding select_by_id_for_tenant_use ask
fixed_credential w input = if str_eq input.credential_id "" then pure none else do
  now ← ask w.clock
  c ← select_by_id_for_tenant_use now input.tenant_id input.credential_id input.provider input.mode
  pure (some c)

unfoldable pub new_task : StartInput → ℤ → ℤ → String → ℕ → GenerationTask
new_task input rule_id cost id now = record {
  id = id;
  user_id = input.user_id;
  tenant_id = input.tenant_id;
  status = running;
  upstream_task_id = "";
  credential_id = "";
  rule_id = rule_id;
  cost = cost;
  created_at = now;
  next_poll_at = some (now + async_initial_poll_delay);
  poll_interval = async_initial_poll_delay / second;
  upstream_status = "";
  upstream_error = "";
  refund_status = none_yet;
  refund_amount = pos 0;
  refunded_at = none;
  completed_at = none;
}

-- From the charge on.
unfoldable pub start_reserved :
    Outside → StartInput → ℤ → ℤ → Option ProviderCredential → String → M StartOutput
unfolding create_attempts conclude
start_reserved w input rule_id cost fixed id = do
  r ← create_attempts w input id fixed (attempts_for input) [] all_failed
  conclude w id cost r

unfoldable pub start_priced : Outside → StartInput → Option (ℤ × ℤ) → M StartOutput
unfolding fixed_credential new_task start_reserved ask
start_priced w input none = raise pricing_failed
start_priced w input (some (rule_id, cost)) =
    if not (w.has_adapter input.provider) then raise adapter_not_found else do
      fixed ← fixed_credential w input
      id ← ask w.fresh_id
      now ← ask w.clock
      reserve_and_create_task (record {
        user_id = input.user_id;
        cost = cost;
        task = some (new_task input rule_id cost id now);
        rule_id = rule_id;
        limit_status = [];
      })
      start_reserved w input rule_id cost fixed id

-- `StartTask`.
unfoldable pub start_task : Outside → StartInput → M StartOutput
unfolding start_priced
start_task w input =
    if str_eq input.user_id "" || str_eq input.provider "" || str_eq input.body ""
    then raise missing_parameter
    else start_priced w input input.priced
