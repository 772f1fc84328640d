-- ===== src/Async/Upstream.antt =====
-- What the runner of internal/service/async_runner.go gets from outside: the answers of the upstream
-- adapters and of the file service, and the clock. Each is a function of the number of statements
-- that the database got before, and otherwise arbitrary. Also internal/adapter/errors.go.
use license_server_ai.Base.{ℕ, String, Bool, true, false, ◌||◌, Option, List, leb, ◌==◌}
use license_server_ai.Base.Int.{ℤ}
use license_server_ai.Model.Credential.{ProviderCredential}
use license_server_ai.Model.Generation.{GenerationTask}
use license_server_ai.Database.Core.{M, Error, ok}

-- An error of `Create`: a status of the upstream, an error of the network (`net.Error` or
-- `url.Error`), or another.
pub data CreateError : Type 0 where
  http : ℕ → CreateError
  network other : CreateError

-- `CreateErrorIsNetwork`.
unfoldable pub create_error_is_network : CreateError → Bool
create_error_is_network network = true
create_error_is_network _ = false

-- `CreateErrorNeedsCredentialRetry`.
unfoldable pub create_error_needs_credential_retry : CreateError → Bool
create_error_needs_credential_retry (http s) = (s == 401) || (s == 403) || (s == 429) || leb 500 s
create_error_needs_credential_retry network = true
create_error_needs_credential_retry other = false

-- `CreateErrorDegradesCredential`.
unfoldable pub create_error_degrades_credential : CreateError → Bool
create_error_degrades_credential (http s) = (s == 401) || (s == 403)
create_error_degrades_credential _ = false

-- `CreateErrorMarksCredentialDown`.
unfoldable pub create_error_marks_credential_down : CreateError → Bool
create_error_marks_credential_down e = false

-- The media are given by their addresses.
pub record CreateResult : Type 0 where
  pub upstream_task_id : String
  pub media : List String

-- `answered none` is a nil result without an error.
pub data Created : Type 0 where
  answered : Option CreateResult → Created
  refused : CreateError → Created

pub data AsyncStatus : Type 0 where
  running succeeded failed unlisted : AsyncStatus

-- `progressed` says whether the progress is more than what the task has stored.
pub record PollResult : Type 0 where
  pub status : AsyncStatus
  pub progressed : Bool
  pub media : List String
  pub error : String

pub data Polled : Type 0 where
  answer : PollResult → Polled
  unreachable : String → Polled

-- Why a task fails: `lastErr` of StartTask, and the reasons that are found later.
pub data StartError : Type 0 where
  no_credential : Error → StartError
  undecryptable empty_result no_task_id not_stored all_failed : StartError
  unsaved_media deadline_passed : StartError
  create_error : CreateError → StartError

-- The files of a task, in the order in which they were saved; downloading and saving the media
-- at a position.
pub record Files : Type 0 where
  pub list_for_task : ℕ → String → Option (List String)
  pub save_result : ℕ → String → ℕ → String → Option String

-- `StartInput`, without what only the price depends on; `priced` is the answer of `MatchForTenant`,
-- a rule and a cost.
pub record StartInput : Type 0 where
  pub user_id : String
  pub tenant_id : String
  pub provider : String
  pub mode : String
  pub credential_id : String
  pub body : String
  pub priced : Option (ℤ × ℤ)

-- `describe` is the text of an error, `is_network_error` whether it wraps an error of the network,
-- `provider_of` and `updated_at` are the columns of those names of a stored task, `fresh_id` the
-- random id of a new task. `task_timeout` is in nanoseconds; 0 stands for every timeout that is not
-- positive.
pub record Outside : Type 0 where
  pub clock : ℕ → ℕ
  pub fresh_id : ℕ → String
  pub has_adapter : String → Bool
  pub decrypts : ProviderCredential → Bool
  pub create : ℕ → ℕ → ProviderCredential → String → Created
  pub interrupts : ℕ → ℕ → Option CreateError
  pub poll : ℕ → ProviderCredential → String → Polled
  pub provider_of : GenerationTask → String
  pub updated_at : ℕ → GenerationTask → ℕ
  pub files : Option Files
  pub task_timeout : ℕ
  pub describe : StartError → String
  pub is_network_error : StartError → Bool

-- The outside is asked.
unfoldable pub ask : {A : Type 0} → (ℕ → A) → M A
ask f d = (ok (f d.calls), d)
