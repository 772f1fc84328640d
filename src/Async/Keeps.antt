-- ===== src/Async/Keeps.antt =====
-- Calls that keep a property of the tables whatever statements fail, and the rules for the calls of
-- internal/service/async_runner.go.
use license_server_ai.Base.{ℕ, String, ◌≡◌, refl, Bool, true, false, List, if◌then◌else◌}
use license_server_ai.Model.Generation.{GenerationTask}
use license_server_ai.Model.Credential.{ProviderCredential}
use license_server_ai.Database.Core.{
  Db, Tables, M, Result, ok, Error, pure, raise, recover, attempt, send, tick, ◌>>=◌,
}
use license_server_ai.Database.Statements.{first_task, read, updates_task, with_update}
use license_server_ai.Database.Ends.{
  Ends, returns, raises, Ends-bind, recover-Ends, first_task-then,
}
use license_server_ai.Database.Attempt.{attempt-Ends, act-Ends}
use license_server_ai.Credit.Closed.{Closed}
use license_server_ai.Database.Steady.{
  Steady, pure-Steady, raise-Steady, bind-Steady, attempt-Steady, recover-Steady, send-Steady,
}
use license_server_ai.Credit.Tasks.{ReserveTaskInput, reserve_and_create_task}
use license_server_ai.Credit.Frames.{reserve_and_create_task-Ends}
use license_server_ai.Credit.Steady.{reserve_and_create_task-Steady, fail_task_and_refund-Steady}
use license_server_ai.Credit.Refunds.{fail_task_and_refund}
use license_server_ai.Credit.RefundFrames.{fail_task_and_refund-Ends}
use license_server_ai.Credential.Selection.{with_credentials, change_credential, update_credential}
use license_server_ai.Async.Upstream.{ask}

-- From tables with the property the call returns with it, or fails with `E`; and it leaves the plan
-- of the faults alone.
pub record Holds (P E : Tables → Type 0) {A : Type 0} (m : M A) : Type 0 where
  pub kept : (d : Db) → P d.tables → Ends (λ _. P) E (m d)
  pub steady : Steady m

abbrev pub Keeps : (Tables → Type 0) → {A : Type 0} → M A → Type 0
Keeps P m = Holds P P m

-- The rows of the credentials do not matter to the property.
abbrev pub FreeOfCredentials : (Tables → Type 0) → Type 0
FreeOfCredentials P =
    (f : List ProviderCredential → List ProviderCredential) (t : Tables)
    → P t
    → P (with_credentials f t)

-- A change of a task that leaves its id and its refund alone.
abbrev pub IsMild : (GenerationTask → GenerationTask) → Type 0
IsMild f = (y : GenerationTask) → ((f y).id ≡ y.id) × ((f y).refund_status ≡ y.refund_status)

-- Such changes keep the property.
abbrev pub FreeOfTasks : (Tables → Type 0) → Type 0
FreeOfTasks P =
    (id : String) (f : GenerationTask → GenerationTask) (t : Tables)
    → IsMild f
    → P t
    → P (with_update id f t)

module _ (P : Tables → Type 0) where
  pub pure-Keeps : {E : Tables → Type 0} {A : Type 0} (a : A) → Holds P E (pure a)
  pure-Keeps a = record { kept = λ d h. returns h; steady = pure-Steady a }

  pub raise-Keeps : (A : Type 0) (e : Error) → Keeps P {A = A} (raise e)
  raise-Keeps A e = record { kept = λ d h. raises h; steady = raise-Steady A e }

  pub bind-Keeps :
      {E : Tables → Type 0} {A B : Type 0} (m : M A) (k : A → M B)
      → Holds P E m
      → ((a : A) → Holds P E (k a))
      → Holds P E (m >>= k)
  bind-Keeps m k hm hk = record {
    kept = λ d h. Ends-bind (λ _. P) m k d (hm.kept d h) (λ a d' h'. (hk a).kept d' h');
    steady = bind-Steady m k hm.steady (λ a. (hk a).steady);
  }

  pub if-Keeps :
      {E : Tables → Type 0} {A : Type 0} (b : Bool) (m n : M A)
      → Holds P E m
      → Holds P E n
      → Holds P E (if b then m else n)
  if-Keeps true m n hm hn = hm
  if-Keeps false m n hm hn = hn

  pub attempt-Keeps :
      {E : Tables → Type 0} {A : Type 0} (m : M A) → Keeps P m → Holds P E (attempt m)
  attempt-Keeps {E} {A} m hm = record {
    kept = λ d h. attempt-Ends (λ _. P) m d (both (hm.kept d h));
    steady = attempt-Steady m hm.steady;
  }
    where
      both : {r : Result A × Db} → Ends (λ _. P) P r → Ends (λ _. P) (λ t. (e : Error) → P t) r
      both (returns q) = returns q
      both (raises q) = raises (λ _. q)

  pub recover-Keeps :
      {E : Tables → Type 0} {A : Type 0} (m : M A) (a : A) → Keeps P m → Holds P E (recover m a)
  recover-Keeps m a hm = record {
    kept = λ d h. recover-Ends {E = P} m a d (hm.kept d h) (λ _ q. q);
    steady = recover-Steady m a hm.steady;
  }

  pub ask-Keeps : {E : Tables → Type 0} {A : Type 0} (f : ℕ → A) → Holds P E (ask f)
  unfolding ask
  ask-Keeps f = record { kept = λ d h. returns h; steady = record { same = λ d. refl } }

  -- A statement that answers `g` of the tables and changes them by `w`.
  act-Keeps :
      {A : Type 0} (g : Tables → A) (w : Tables → Tables)
      → ((t : Tables) → P t → P (w t))
      → Keeps P (send (λ t. ok (g t, w t)))
  act-Keeps g w h = record { kept = λ d p. act-Ends g w d p (h d.tables p); steady = send-Steady _ }

  pub read-Keeps : {A : Type 0} (g : Tables → A) → Keeps P (read g)
  unfolding read
  read-Keeps g = act-Keeps g (λ t. t) (λ t h. h)

  pub first_task-Keeps :
      {A : Type 0} (id : String) (k : GenerationTask → M A)
      → ((t : GenerationTask) → Keeps P (k t))
      → Keeps P (first_task id >>= k)
  unfolding first_task
  first_task-Keeps id k hk = record {
    kept = λ d h. first_task-then id k d (λ t _. (hk t).kept (tick d) h) h;
    steady = bind-Steady (first_task id) k (send-Steady _) (λ t. (hk t).steady);
  }

  pub updates_task-Keeps :
      (id : String) (f : GenerationTask → GenerationTask)
      → ((t : Tables) → P t → P (with_update id f t))
      → Keeps P (updates_task id f)
  unfolding updates_task
  updates_task-Keeps id f h = act-Keeps (λ _. tt) (with_update id f) h

  pub update_credential-Keeps :
      (free : FreeOfCredentials P) (id : String) (f : ProviderCredential → ProviderCredential)
      → Keeps P (update_credential id f)
  unfolding update_credential
  update_credential-Keeps free id f =
      act-Keeps (λ _. tt) (with_credentials (change_credential id f))
        (λ t h. free (change_credential id f) t h)

  module _ (closed : Closed P) where
    pub fail_task_and_refund-Keeps :
        (id reason note : String) (now : ℕ) → Keeps P (fail_task_and_refund id reason note now)
    fail_task_and_refund-Keeps id reason note now = record {
      kept = λ d h. fail_task_and_refund-Ends P closed id reason note now d h;
      steady = fail_task_and_refund-Steady id reason note now;
    }

    pub reserve_and_create_task-Keeps :
        (input : ReserveTaskInput) → Keeps P (reserve_and_create_task input)
    reserve_and_create_task-Keeps input = record {
      kept = λ d h. reserve_and_create_task-Ends P closed input d h;
      steady = reserve_and_create_task-Steady input;
    }
