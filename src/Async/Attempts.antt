-- ===== src/Async/Attempts.antt =====
-- The attempts of internal/service/async_runner.go to start a task keep a property of the tables that
-- reads neither the credentials nor more of a task than its id and its refund.
use license_server_ai.Base.{refl, ℕ, zero, suc, String, Option, none, some, List, [], ◌∷◌, ◌++◌}
use license_server_ai.Base.Int.{ℤ}
use license_server_ai.Model.Credential.{ProviderCredential, CredentialHealth, degraded, down}
use license_server_ai.Database.Core.{Tables, M, Result, ok, err, pure, recover}
use license_server_ai.Credential.Selection.{
  mark_health, take_credential, select_for_tenant_excluding, check_mode,
  select_by_id_for_tenant_use,
}
use license_server_ai.Async.Upstream.{
  Outside, Files, StartInput, StartError, CreateError, CreateResult, Created, answered, refused,
  create_error, undecryptable, not_stored, create_error_is_network,
  create_error_degrades_credential, create_error_marks_credential_down,
}
use license_server_ai.Async.Failure.{schedule_next_poll}
use license_server_ai.Async.Saving.{store_succeeded, save_after, finalize_with, finalize_succeeded}
use license_server_ai.Async.Start.{
  Attempts, started, unsaved, gave_up, select_credential_for_create, after_created, after_create,
  mark_after, after_attempt, attempt_with, create_attempts, fixed_credential,
}
use license_server_ai.Async.Keeps.{
  Keeps, Holds, FreeOfTasks, FreeOfCredentials, pure-Keeps, raise-Keeps, bind-Keeps, if-Keeps,
  attempt-Keeps, recover-Keeps, ask-Keeps, read-Keeps, updates_task-Keeps, update_credential-Keeps,
}

module _ (P : Tables → Type 0) (free : FreeOfCredentials P) (w : Outside) where
  take_credential-Keeps :
      (now : ℕ) (o : Option ProviderCredential) → Keeps P (take_credential now o)
  unfolding take_credential
  take_credential-Keeps now none = raise-Keeps P _ _
  take_credential-Keeps now (some c) =
      bind-Keeps P _ _ (recover-Keeps P _ tt (update_credential-Keeps P free c.id _))
        (λ _. pure-Keeps P _)

  check_mode-Keeps :
      (now : ℕ) (provider mode : String) (o : Option ProviderCredential)
      → Keeps P (check_mode now provider mode o)
  unfolding check_mode
  check_mode-Keeps now provider mode none = raise-Keeps P _ _
  check_mode-Keeps now provider mode (some c) =
      if-Keeps P _ _ _ (raise-Keeps P _ _) (take_credential-Keeps now (some c))

  pub fixed_credential-Keeps : (input : StartInput) → Keeps P (fixed_credential w input)
  unfolding fixed_credential select_by_id_for_tenant_use
  fixed_credential-Keeps input = if-Keeps P _ _ _ (pure-Keeps P none) (
      bind-Keeps P _ _ (ask-Keeps P w.clock) λ now.
        bind-Keeps P _ _
          (bind-Keeps P _ _ (read-Keeps P _)
            (λ o. check_mode-Keeps now input.provider input.mode o))
          (λ c. pure-Keeps P (some c)))

  select_credential_for_create-Keeps :
      (input : StartInput) (excluded : List String) (fixed : Option ProviderCredential)
      → Keeps P (select_credential_for_create w input excluded fixed)
  unfolding select_credential_for_create select_for_tenant_excluding
  select_credential_for_create-Keeps input excluded (some c) = pure-Keeps P c
  select_credential_for_create-Keeps input excluded none =
      bind-Keeps P _ _ (ask-Keeps P w.clock)
        λ now. bind-Keeps P _ _ (read-Keeps P _) (λ o. take_credential-Keeps now o)

module _ (P : Tables → Type 0) (tasks : FreeOfTasks P) (free : FreeOfCredentials P)
    (w : Outside) where
  pub schedule_next_poll-Keeps :
      (id : String) (delay : ℤ) (status error : String)
      → Keeps P (schedule_next_poll w id delay status error)
  unfolding schedule_next_poll
  schedule_next_poll-Keeps id delay status error = bind-Keeps P _ _ (ask-Keeps P w.clock) λ now.
      recover-Keeps P _ tt (updates_task-Keeps P id _ (λ t h. tasks id _ t (λ y. (refl, refl)) h))

  store_succeeded-Keeps :
      (id : String) (kept : List String) (saved : Option (List String))
      → Keeps P (store_succeeded w id kept saved)
  unfolding store_succeeded
  store_succeeded-Keeps id kept none = raise-Keeps P _ _
  store_succeeded-Keeps id kept (some saved) = bind-Keeps P _ _ (ask-Keeps P w.clock) λ now.
      bind-Keeps P _ _ (updates_task-Keeps P id _ (λ t h. tasks id _ t (λ y. (refl, refl)) h))
        (λ _. pure-Keeps P _)

  save_after-Keeps :
      (f : Files) (id : String) (media : List String) (existing : Option (List String))
      → Keeps P (save_after w f id media existing)
  unfolding save_after
  save_after-Keeps f id media none = raise-Keeps P _ _
  save_after-Keeps f id media (some existing) =
      bind-Keeps P _ _ (ask-Keeps P _) (λ saved. store_succeeded-Keeps id _ saved)

  finalize_with-Keeps :
      (id : String) (media : List String) (f : Option Files) → Keeps P (finalize_with w id media f)
  unfolding finalize_with
  finalize_with-Keeps id media none = raise-Keeps P _ _
  finalize_with-Keeps id [] (some f) = raise-Keeps P _ _
  finalize_with-Keeps id (m ∷ ms) (some f) =
      bind-Keeps P _ _ (ask-Keeps P _) (λ existing. save_after-Keeps f id (m ∷ ms) existing)

  pub finalize_succeeded-Keeps :
      (id : String) (media : List String) → Keeps P (finalize_succeeded w id media)
  unfolding finalize_succeeded
  finalize_succeeded-Keeps id media = finalize_with-Keeps id media w.files

  after_create-Keeps :
      {E : Tables → Type 0} (id : String) (o : Option CreateResult)
      → Holds P E (after_create w id o)
  unfolding after_create after_created
  after_create-Keeps {E} id none = pure-Keeps P _
  after_create-Keeps {E} id (some r) = go r.upstream_task_id r.media
    where
      saved :
          (x : Result (List String))
          → Holds P E (elim x [ ok _ ↦ pure started | err _ ↦ pure unsaved ])
      saved (ok _) = pure-Keeps P started
      saved (err _) = pure-Keeps P unsaved

      stored :
          (x : Result (Unit {0}))
          → Holds P E (elim x [ ok _ ↦ pure started | err _ ↦ pure (gave_up not_stored) ])
      stored (ok _) = pure-Keeps P started
      stored (err _) = pure-Keeps P (gave_up not_stored)

      go : (up : String) (media : List String) → Holds P E (after_created w id up media)
      go up (m ∷ ms) =
          bind-Keeps P _ _ (attempt-Keeps P _ (finalize_succeeded-Keeps id (m ∷ ms))) saved
      go up [] = if-Keeps P _ _ _ (pure-Keeps P _) (
          bind-Keeps P _ _
            (attempt-Keeps P _
              (updates_task-Keeps P id _ (λ t h. tasks id _ t (λ y. (refl, refl)) h)))
            stored)

  mark_health-Keeps :
      {E : Tables → Type 0} (id : String) (health : CredentialHealth)
      → Holds P E (recover (mark_health id health) tt)
  unfolding mark_health
  mark_health-Keeps id health = recover-Keeps P _ tt (update_credential-Keeps P free id _)

  mark_after-Keeps :
      {E : Tables → Type 0} (e : CreateError) (c : ProviderCredential) → Holds P E (mark_after e c)
  unfolding mark_after
  mark_after-Keeps e c =
      if-Keeps P (create_error_is_network e) _ _ (mark_health-Keeps c.id degraded) (
        if-Keeps P (create_error_degrades_credential e) _ _ (mark_health-Keeps c.id degraded) (
          if-Keeps P (create_error_marks_credential_down e) _ _ (mark_health-Keeps c.id down)
            (pure-Keeps P tt)))

  after_attempt-Keeps :
      {E : Tables → Type 0} (id : String) (c : ProviderCredential) (next : StartError → M Attempts)
      (r : Created)
      → ((e : StartError) → Holds P E (next e))
      → Holds P E (after_attempt w id c next r)
  unfolding after_attempt
  after_attempt-Keeps id c next (answered o) h = after_create-Keeps id o
  after_attempt-Keeps id c next (refused e) h =
      if-Keeps P _ _ _ (pure-Keeps P _)
        (bind-Keeps P _ _ (mark_after-Keeps e c) (λ _. h (create_error e)))

  attempt_with-Keeps :
      {E : Tables → Type 0} (input : StartInput) (id : String)
      (next : ProviderCredential → StartError → M Attempts) (r : Result ProviderCredential)
      → ((c : ProviderCredential) (e : StartError) → Holds P E (next c e))
      → Holds P E (attempt_with w input id next r)
  unfolding attempt_with
  attempt_with-Keeps input id next (err e) h = pure-Keeps P _
  attempt_with-Keeps input id next (ok c) h =
      bind-Keeps P _ _
        (recover-Keeps P _ tt
          (updates_task-Keeps P id _ (λ t h. tasks id _ t (λ y. (refl, refl)) h)))
        λ _.
          if-Keeps P _ _ _ (h c undecryptable)
            (bind-Keeps P _ _ (ask-Keeps P _) (λ r. after_attempt-Keeps id c (next c) r (h c)))

  pub create_attempts-Keeps :
      {E : Tables → Type 0} (input : StartInput) (id : String) (fixed : Option ProviderCredential)
      (left : ℕ) (excluded : List String) (last : StartError)
      → Holds P E (create_attempts w input id fixed left excluded last)
  unfolding create_attempts
  create_attempts-Keeps input id fixed zero excluded last = pure-Keeps P _
  create_attempts-Keeps input id fixed (suc left) excluded last =
      bind-Keeps P _ _
        (attempt-Keeps P _ (select_credential_for_create-Keeps P free w input excluded fixed))
        λ r.
          attempt_with-Keeps input id _ r
            (λ c e. create_attempts-Keeps input id fixed left (excluded ++ c.id ∷ []) e)
