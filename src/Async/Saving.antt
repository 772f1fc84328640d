-- ===== src/Async/Saving.antt =====
-- internal/service/async_runner.go, `finalizeSucceeded`: the media of a task are saved, after those
-- that an earlier attempt saved, and the task succeeds. The rows of generation_files, which
-- SaveResult writes and DeleteForTask removes when a start fails, belong to the file service.
use license_server_ai.Base.{
  ℕ, suc, String, Option, none, some, List, [], ◌∷◌, ◌++◌, length, take, drop, if◌then◌else◌, ltb,
}
use license_server_ai.Model.Generation.{GenerationTask, succeeded}
use license_server_ai.Database.Core.{M, media_failed, pure, raise, ◌>>=◌, ◌>>◌}
use license_server_ai.Database.Statements.{updates_task}
use license_server_ai.Async.Upstream.{Outside, Files, ask}

-- `existingSavedFileIDs`: the ids to keep, and the position to go on from.
unfoldable pub existing_saved_file_ids : List String → ℕ → List String × ℕ
existing_saved_file_ids existing count =
    let resume_from = (if ltb count (length existing) then count else length existing) in
    (take resume_from existing, resume_from)

-- `id` in front of the ids that the rest gives.
abbrev pub and_then : Option String → Option (List String) → Option (List String)
and_then none rest = none
and_then (some id) none = none
and_then (some id) (some ids) = some (id ∷ ids)

-- The loop over the media from a position on; it ends at the first error.
unfoldable pub save_media : Files → ℕ → String → ℕ → List String → Option (List String)
save_media f n id i [] = some []
save_media f n id i (m ∷ ms) = and_then (f.save_result n id i m) (save_media f n id (suc i) ms)

unfoldable pub succeeded_task : ℕ → GenerationTask → GenerationTask
succeeded_task now task = record task {
  status = succeeded;
  completed_at = some now;
  next_poll_at = none;
  poll_interval = 0;
  upstream_status = "succeeded";
}

-- The UPDATE at the end; the result are the ids that `result_json` lists.
unfoldable pub store_succeeded :
    Outside → String → List String → Option (List String) → M (List String)
unfolding succeeded_task ask
store_succeeded w id kept none = raise media_failed
store_succeeded w id kept (some saved) = do
  now ← ask w.clock
  updates_task id (succeeded_task now)
  pure (kept ++ saved)

unfoldable pub save_after :
    Outside → Files → String → List String → Option (List String) → M (List String)
unfolding existing_saved_file_ids save_media store_succeeded ask
save_after w f id media none = raise media_failed
save_after w f id media (some existing) =
    let (kept, resume_from) = existing_saved_file_ids existing (length media) in
    do
      saved ← ask (λ n. save_media f n id resume_from (drop resume_from media))
      store_succeeded w id kept saved

unfoldable pub finalize_with : Outside → String → List String → Option Files → M (List String)
unfolding save_after ask
finalize_with w id media none = raise media_failed
finalize_with w id [] (some f) = raise media_failed
finalize_with w id (m ∷ ms) (some f) = do
  existing ← ask (λ n. f.list_for_task n id)
  save_after w f id (m ∷ ms) existing

-- `finalizeSucceeded`.
unfoldable pub finalize_succeeded : Outside → String → List String → M (List String)
unfolding finalize_with
finalize_succeeded w id media = finalize_with w id media w.files
