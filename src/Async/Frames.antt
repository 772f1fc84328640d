-- ===== src/Async/Frames.antt =====
-- Every step of internal/service/async_runner.go keeps a closed property of the tables that does not
-- read the credentials, whatever the upstreams answer and whichever statements fail.
use license_server_ai.Base.{ℕ, String, not, Option, none, some, List, [], ◌∷◌}
use license_server_ai.Base.Int.{ℤ, pos}
use license_server_ai.Model.Credential.{ProviderCredential}
use license_server_ai.Model.Generation.{GenerationTask}
use license_server_ai.Database.Core.{
  Tables, Result, ok, err, pure, raise, key_not_decrypted, adapter_not_found, ◌>>=◌,
}
use license_server_ai.Credit.Closed.{Closed}
use license_server_ai.Credit.Refunds.{Settlement}
use license_server_ai.Credential.Selection.{
  found_credential, get_credential, get_credential_for_tenant,
}
use license_server_ai.Async.Upstream.{
  Outside, StartInput, unsaved_media, PollResult, Polled, answer, unreachable, AsyncStatus, running,
  succeeded, failed, unlisted,
}
use license_server_ai.Async.Failure.{
  mark_unrefunded, fail_and_refund, schedule_next_poll, resolve_next_async_poll_delay,
  async_idle_poll_delay,
}
use license_server_ai.Async.Start.{
  Attempts, started, unsaved, gave_up, conclude, start_reserved, start_priced, start_task,
}
use license_server_ai.Async.Poll.{
  finish_task, advance_by, advance_polled, advance_with, advance_one, fail_each, cleanup_stuck,
  advance_each, poll_once,
}
use license_server_ai.Async.Keeps.{
  Keeps, FreeOfTasks, FreeOfCredentials, pure-Keeps, raise-Keeps, bind-Keeps, if-Keeps,
  attempt-Keeps, recover-Keeps, ask-Keeps, read-Keeps, first_task-Keeps, updates_task-Keeps,
  fail_task_and_refund-Keeps, reserve_and_create_task-Keeps,
}
use license_server_ai.Async.Attempts.{
  schedule_next_poll-Keeps, finalize_succeeded-Keeps, fixed_credential-Keeps, create_attempts-Keeps,
}

module _ (P : Tables → Type 0) (closed : Closed P) (free : FreeOfCredentials P) (w : Outside) where
  free_tasks : FreeOfTasks P
  free_tasks id f t _ h = closed.updated id f t h

  fail_and_refund-Keeps : (id reason note : String) → Keeps P (fail_and_refund w id reason note)
  unfolding fail_and_refund mark_unrefunded
  fail_and_refund-Keeps id reason note = bind-Keeps P _ _ (ask-Keeps P w.clock) λ now.
      bind-Keeps P _ _ (attempt-Keeps P _ (fail_task_and_refund-Keeps P closed id reason note now))
        λ r. bind-Keeps P _ _ (ask-Keeps P w.clock) λ later.
          bind-Keeps P _ _ (marked r later)
            λ _. recover-Keeps P _ tt (first_task-Keeps P id _ (λ _. pure-Keeps P tt))
    where
      marked : (r : Result Settlement) (later : ℕ) → Keeps P (mark_unrefunded id reason later r)
      marked (ok s) later = pure-Keeps P tt
      marked (err e) later =
          recover-Keeps P _ tt (updates_task-Keeps P id _ (λ t h. closed.updated id _ t h))

  conclude-Keeps : (id : String) (cost : ℤ) (r : Attempts) → Keeps P (conclude w id cost r)
  unfolding conclude
  conclude-Keeps id cost started = pure-Keeps P _
  conclude-Keeps id cost unsaved =
      bind-Keeps P _ _ (fail_and_refund-Keeps id _ _) (λ _. raise-Keeps P _ _)
  conclude-Keeps id cost (gave_up e) =
      bind-Keeps P _ _ (fail_and_refund-Keeps id _ _) (λ _. raise-Keeps P _ _)

  start_priced-Keeps :
      (input : StartInput) (priced : Option (ℤ × ℤ)) → Keeps P (start_priced w input priced)
  unfolding start_priced start_reserved
  start_priced-Keeps input none = raise-Keeps P _ _
  start_priced-Keeps input (some (rule_id, cost)) = if-Keeps P _ _ _ (raise-Keeps P _ _) (
      bind-Keeps P _ _ (fixed_credential-Keeps P free w input) λ fixed.
        bind-Keeps P _ _ (ask-Keeps P w.fresh_id) λ id.
          bind-Keeps P _ _ (ask-Keeps P w.clock) λ now.
            bind-Keeps P _ _ (reserve_and_create_task-Keeps P closed _) λ _.
              bind-Keeps P _ _ (create_attempts-Keeps P free_tasks free w input id fixed _ _ _)
                (λ r. conclude-Keeps id cost r))

  pub start_task-Keeps : (input : StartInput) → Keeps P (start_task w input)
  unfolding start_task
  start_task-Keeps input =
      if-Keeps P _ _ _ (raise-Keeps P _ _) (start_priced-Keeps input input.priced)

  finish_task-Keeps : (t : GenerationTask) (r : PollResult) → Keeps P (finish_task w t r)
  unfolding finish_task
  finish_task-Keeps t r =
      bind-Keeps P _ _
        (attempt-Keeps P _ (finalize_succeeded-Keeps P free_tasks free w t.id r.media)) saved
    where
      saved :
          (x : Result (List String))
          → Keeps P (elim x [
            | ok _ ↦ pure tt
            | err e ↦
                (schedule_next_poll w t.id
                    (pos async_idle_poll_delay)
                    "succeeded"
                    (w.describe unsaved_media)
                  >>= λ _. raise e)
          ])
      saved (ok _) = pure-Keeps P tt
      saved (err e) =
          bind-Keeps P _ _
            (schedule_next_poll-Keeps P free_tasks free w t.id (pos async_idle_poll_delay)
              "succeeded" (w.describe unsaved_media))
            (λ _. raise-Keeps P _ e)

  advance_by-Keeps :
      (t : GenerationTask) (r : PollResult) (s : AsyncStatus) → Keeps P (advance_by w t r s)
  unfolding advance_by
  advance_by-Keeps t r running =
      schedule_next_poll-Keeps P free_tasks free w t.id
        (pos (resolve_next_async_poll_delay r.progressed)) "running" r.error
  advance_by-Keeps t r failed = fail_and_refund-Keeps t.id _ _
  advance_by-Keeps t r unlisted = pure-Keeps P tt
  advance_by-Keeps t r succeeded = go r.media
    where
      go :
          (media : List String)
          → Keeps P (elim media [
            | [] ↦ fail_and_refund w t.id "上游任务成功但未返回任何媒体文件" "上游未返回媒体文件"
            | _ ∷ _ ↦ finish_task w t r
          ])
      go [] = fail_and_refund-Keeps t.id _ _
      go (m ∷ ms) = finish_task-Keeps t r

  advance_polled-Keeps : (t : GenerationTask) (p : Polled) → Keeps P (advance_polled w t p)
  unfolding advance_polled
  advance_polled-Keeps t (answer r) = advance_by-Keeps t r r.status
  advance_polled-Keeps t (unreachable e) =
      bind-Keeps P _ _
        (schedule_next_poll-Keeps P free_tasks free w t.id (pos async_idle_poll_delay) "" e)
        (λ _. raise-Keeps P _ _)

  advance_with-Keeps :
      (t : GenerationTask) (r : Result ProviderCredential) → Keeps P (advance_with w t r)
  unfolding advance_with
  advance_with-Keeps t (err e) = fail_and_refund-Keeps t.id _ _
  advance_with-Keeps t (ok c) =
      if-Keeps P (not (w.decrypts c)) _ _ (raise-Keeps P _ key_not_decrypted) (
        if-Keeps P (not (w.has_adapter (w.provider_of t))) _ _ (raise-Keeps P _ adapter_not_found) (
          bind-Keeps P _ _ (ask-Keeps P (λ n. w.poll n c t.upstream_task_id))
            (λ p. advance_polled-Keeps t p)))

  get_credential-Keeps : (id : String) → Keeps P (get_credential id)
  unfolding get_credential get_credential_for_tenant found_credential
  get_credential-Keeps id = bind-Keeps P _ _ (read-Keeps P _) found
    where
      found : (o : Option ProviderCredential) → Keeps P (found_credential o)
      found none = raise-Keeps P _ _
      found (some c) = pure-Keeps P c

  advance_one-Keeps : (t : GenerationTask) → Keeps P (advance_one w t)
  unfolding advance_one
  advance_one-Keeps t = bind-Keeps P _ _ (ask-Keeps P w.clock) λ now.
      if-Keeps P _ _ _ (fail_and_refund-Keeps t.id _ _) (
        bind-Keeps P _ _ (attempt-Keeps P _ (get_credential-Keeps t.credential_id))
          (λ r. advance_with-Keeps t r))

  fail_each-Keeps : (ts : List GenerationTask) → Keeps P (fail_each w ts)
  unfolding fail_each
  fail_each-Keeps [] = pure-Keeps P tt
  fail_each-Keeps (t ∷ ts) =
      bind-Keeps P _ _ (fail_and_refund-Keeps t.id _ _) (λ _. fail_each-Keeps ts)

  cleanup_stuck-Keeps : Keeps P (cleanup_stuck w)
  unfolding cleanup_stuck
  cleanup_stuck-Keeps = if-Keeps P _ _ _ (pure-Keeps P _) (
      bind-Keeps P _ _ (ask-Keeps P w.clock) λ now.
        bind-Keeps P _ _ (read-Keeps P _)
          λ ts. bind-Keeps P _ _ (fail_each-Keeps ts) (λ _. pure-Keeps P _))

  advance_each-Keeps : (n : ℕ) (ts : List GenerationTask) → Keeps P (advance_each w n ts)
  unfolding advance_each
  advance_each-Keeps n [] = pure-Keeps P n
  advance_each-Keeps n (t ∷ ts) =
      bind-Keeps P _ _ (attempt-Keeps P _ (advance_one-Keeps t)) (λ r. advance_each-Keeps _ ts)

  pub poll_once-Keeps : Keeps P (poll_once w)
  unfolding poll_once
  poll_once-Keeps = bind-Keeps P _ _ cleanup_stuck-Keeps λ n.
      bind-Keeps P _ _ (ask-Keeps P w.clock) λ now.
        bind-Keeps P _ _ (ask-Keeps P w.updated_at)
          λ updated. bind-Keeps P _ _ (read-Keeps P _) (λ ts. advance_each-Keeps n ts)
