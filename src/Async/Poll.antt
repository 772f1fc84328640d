-- ===== src/Async/Poll.antt =====
-- internal/service/async_runner.go, `PollOnce`: tasks that are too old fail, and every task that is
-- due is advanced by one question to the upstream.
use license_server_ai.Base.{
  codes, ℕ, suc, ◌+◌, String, Bool, ◌&&◌, ◌||◌, not, true, Option, none, some, List, [], ◌∷◌,
  if◌then◌else◌, str_eq, ltb, leb, take, length, filter_if,
}
use license_server_ai.Base.Int.{pos}
use license_server_ai.Model.Credential.{ProviderCredential}
use license_server_ai.Model.Generation.{GenerationTask, status_eq, running}
use license_server_ai.Database.Core.{
  M, Result, ok, err, adapter_not_found, key_not_decrypted, poll_failed, pure, raise, attempt,
  ◌>>=◌, ◌>>◌,
}
use license_server_ai.Database.Statements.{read}
use license_server_ai.Pricing.Text.{trim_space}
use license_server_ai.Pricing.Rules.{text_eq}
use license_server_ai.Credential.Selection.{get_credential, earlier}
use license_server_ai.Async.Upstream.{
  Outside, PollResult, Polled, answer, unreachable, AsyncStatus, running as at_work, succeeded,
  failed, unlisted, unsaved_media, deadline_passed, no_credential, ask,
}
use license_server_ai.Async.Failure.{
  fail_and_refund, schedule_next_poll, resolve_next_async_poll_delay, async_idle_poll_delay,
}
use license_server_ai.Async.Saving.{finalize_succeeded}

-- `firstNonEmptyService` of two texts, the second of which is not blank.
unfoldable pub first_non_empty : String → String → String
unfolding trim_space text_eq
first_non_empty a b = if text_eq (trim_space (codes a)) [] then b else a

unfoldable pub finish_task : Outside → GenerationTask → PollResult → M (Unit {0})
unfolding finalize_succeeded schedule_next_poll
finish_task w t r = do
  saved ← attempt (finalize_succeeded w t.id r.media)
  elim saved [
    | ok _ ↦ pure tt
    | err e ↦ (do
      schedule_next_poll w t.id (pos async_idle_poll_delay) "succeeded" (w.describe unsaved_media)
      raise e)
  ]

-- What an answer of the upstream leads to; another status than the three leads to nothing.
unfoldable pub advance_by : Outside → GenerationTask → PollResult → AsyncStatus → M (Unit {0})
unfolding schedule_next_poll resolve_next_async_poll_delay fail_and_refund first_non_empty
    finish_task
advance_by w t r at_work =
    schedule_next_poll w t.id (pos (resolve_next_async_poll_delay r.progressed)) "running" r.error
advance_by w t r failed = fail_and_refund w t.id (first_non_empty r.error "上游报告失败") "上游报告失败"
advance_by w t r succeeded = elim r.media [
  | [] ↦ fail_and_refund w t.id "上游任务成功但未返回任何媒体文件" "上游未返回媒体文件"
  | _ ∷ _ ↦ finish_task w t r
]
advance_by w t r unlisted = pure tt

unfoldable pub advance_polled : Outside → GenerationTask → Polled → M (Unit {0})
unfolding advance_by schedule_next_poll
advance_polled w t (answer r) = advance_by w t r r.status
advance_polled w t (unreachable e) = do
  schedule_next_poll w t.id (pos async_idle_poll_delay) "" e
  raise poll_failed

unfoldable pub advance_with : Outside → GenerationTask → Result ProviderCredential → M (Unit {0})
unfolding advance_polled fail_and_refund ask
advance_with w t (err e) = fail_and_refund w t.id (w.describe (no_credential e)) "凭证已被删除"
advance_with w t (ok c) =
    if not (w.decrypts c)
    then raise key_not_decrypted
    else if not (w.has_adapter (w.provider_of t))
    then raise adapter_not_found
    else do polled ← ask (λ n. w.poll n c t.upstream_task_id); advance_polled w t polled

abbrev pub timed_out : Outside → ℕ → GenerationTask → Bool
timed_out w now t = ltb 0 w.task_timeout && ltb (t.created_at + w.task_timeout) now

-- `advanceOne`.
unfoldable pub advance_one : Outside → GenerationTask → M (Unit {0})
unfolding advance_with fail_and_refund get_credential ask
advance_one w t = do
  now ← ask w.clock
  if timed_out w now t
      then fail_and_refund w t.id (w.describe deadline_passed) "任务超时"
      else do c ← attempt (get_credential t.credential_id); advance_with w t c

-- The rows of a query are the first ones in the order of a column; rows that are equal there keep
-- the order of the table.
unfoldable pub insert_by :
    (GenerationTask → GenerationTask → Bool)
    → GenerationTask
    → List GenerationTask
    → List GenerationTask
insert_by lt t [] = t ∷ []
insert_by lt t (u ∷ us) = let rest = insert_by lt t us in if lt u t then u ∷ rest else t ∷ u ∷ us

unfoldable pub sort_by :
    (GenerationTask → GenerationTask → Bool) → List GenerationTask → List GenerationTask
unfolding insert_by
sort_by lt [] = []
sort_by lt (t ∷ ts) = insert_by lt t (sort_by lt ts)

abbrev pub async_poll_max_batch : ℕ
async_poll_max_batch = 50

abbrev pub reached : ℕ → Option ℕ → Bool
reached now none = true
reached now (some t) = leb t now

unfoldable pub is_due : ℕ → GenerationTask → Bool
is_due now t =
    status_eq t.status running && not (str_eq t.upstream_task_id "") && reached now t.next_poll_at

-- ORDER BY next_poll_at ASC, updated_at ASC: whether the first two come before the last two.
abbrev pub polled_before : Option ℕ → ℕ → Option ℕ → ℕ → Bool
polled_before a m b n = earlier a b || not (earlier b a) && ltb m n

-- `updated` gives the time at which a row was written last.
unfoldable pub due_tasks : (GenerationTask → ℕ) → ℕ → List GenerationTask → List GenerationTask
unfolding is_due sort_by
due_tasks updated now ts = take async_poll_max_batch (
    sort_by (λ t u. polled_before t.next_poll_at (updated t) u.next_poll_at (updated u))
      (filter_if (is_due now) ts))

unfoldable pub is_stuck : Outside → ℕ → GenerationTask → Bool
is_stuck w now t =
    status_eq t.status running
    && str_eq t.upstream_task_id ""
    && ltb (t.created_at + w.task_timeout) now

unfoldable pub stuck_tasks : Outside → ℕ → List GenerationTask → List GenerationTask
unfolding is_stuck sort_by
stuck_tasks w now ts =
    take 20 (sort_by (λ t u. ltb t.created_at u.created_at) (filter_if (is_stuck w now) ts))

unfoldable pub fail_each : Outside → List GenerationTask → M (Unit {0})
unfolding fail_and_refund
fail_each w [] = pure tt
fail_each w (t ∷ ts) = do
  fail_and_refund w t.id (w.describe deadline_passed) "任务超时且未获取上游任务编号"
  fail_each w ts

-- `cleanupTimedOutTasksWithoutUpstreamID`, in a context that is not cancelled.
unfoldable pub cleanup_stuck : Outside → M ℕ
unfolding stuck_tasks fail_each ask
cleanup_stuck w = if not (ltb 0 w.task_timeout) then pure 0 else do
  now ← ask w.clock
  ts ← read (λ t. stuck_tasks w now t.generation_tasks)
  fail_each w ts
  pure (length ts)

abbrev one_more : Result (Unit {0}) → ℕ → ℕ
one_more (ok _) n = suc n
one_more (err _) n = n

-- The loop over the batch: an error of one task does not stop it.
unfoldable pub advance_each : Outside → ℕ → List GenerationTask → M ℕ
unfolding advance_one
advance_each w count [] = pure count
advance_each w count (t ∷ ts) = do
  r ← attempt (advance_one w t)
  advance_each w (one_more r count) ts

-- `PollOnce`.
unfoldable pub poll_once : Outside → M ℕ
unfolding cleanup_stuck due_tasks advance_each ask
poll_once w = do
  recovered ← cleanup_stuck w
  now ← ask w.clock
  updated ← ask w.updated_at
  ts ← read (λ t. due_tasks updated now t.generation_tasks)
  advance_each w recovered ts
