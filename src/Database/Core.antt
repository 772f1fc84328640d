-- ===== src/Database/Core.antt =====
-- The database as the services use it through gorm: tables, statements that may fail, and
-- transactions. Which statements fail is a plan that the model does not restrict: the n-th
-- statement that is sent fails when `faults n` is true, and then changes nothing.
use license_server_ai.Base.{ℕ, suc, String, Bool, List, if◌then◌else◌}
use license_server_ai.Model.Credit.{UserCredit, CreditTransaction}
use license_server_ai.Model.Device.{Device}
use license_server_ai.Model.License.{License, LicenseEvent}
use license_server_ai.Model.Generation.{GenerationTask}
use license_server_ai.Model.Credential.{ProviderCredential}
use license_server_ai.Model.Sync.{SyncTables}

-- The errors that the services return, by the variable or the message of the source.
pub data Error : Type 0 where
  db_failure record_not_found : Error
  insufficient_balance task_already_refunded consume_record_not_found : Error
  user_not_in_tenant concurrent_limit : Error
  zero_amount cost_not_positive empty_task_id empty_user_id user_mismatch negative_limit : Error
  license_not_found license_revoked license_perpetual not_active not_suspended not_pending : Error
  devices_not_positive unbinds_negative save_failed event_failed : Error
  no_customer license_suspended license_expired device_limit device_blacklisted : Error
  no_conflict conflict_resolved no_merged_data bad_resolution : Error
  push_failed conflict_again apply_failed unknown_data_type : Error
  missing_parameter pricing_failed adapter_not_found credential_unavailable : Error
  create_failed media_failed key_not_decrypted poll_failed interrupted : Error

pub data Result {ℓ} (A : Type ℓ) : Type ℓ where
  ok : A → Result A
  err : Error → Result A

-- A row of `team_members`, as far as it is read: its id and its tenant.
pub record Member : Type 0 where
  pub id : String
  pub tenant_id : String

-- A row of `customers`: its id, its tenant and the team member who owns it.
pub record Customer : Type 0 where
  pub id : String
  pub tenant_id : String
  pub owner_id : String

pub record Tables : Type 0 where
  pub user_credits : List UserCredit
  pub credit_transactions : List CreditTransaction
  pub generation_tasks : List GenerationTask
  pub team_members : List Member
  pub customers : List Customer
  pub licenses : List License
  pub license_events : List LicenseEvent
  pub devices : List Device
  pub sync : SyncTables
  pub provider_credentials : List ProviderCredential

pub record Db : Type 0 where
  pub tables : Tables
  pub open tables use *
  pub faults : ℕ → Bool
  pub calls : ℕ

abbrev pub M : Type 0 → Type 0
M A = Db → Result A × Db

module _ {A : Type 0} where
  abbrev pub pure : A → M A
  pure a d = (ok a, d)

  abbrev pub raise : Error → M A
  raise e d = (err e, d)

infixl 5 ◌>>=◌ ◌>>◌
unfoldable pub ◌>>=◌ : {A B : Type 0} → M A → (A → M B) → M B
◌>>=◌ m f d = let (r, d') = m d in elim r [ ok a ↦ f a d' | err e ↦ (err e, d') ]

abbrev pub ◌>>◌ : {A B : Type 0} → M A → M B → M B
m >> k = m >>= λ _. k

-- A call whose error is ignored: the result is then `a`.
unfoldable pub or_else : {A : Type 0} → A → Result A × Db → Result A × Db
or_else a (ok x, d) = (ok x, d)
or_else a (err e, d) = (ok a, d)

unfoldable pub recover : {A : Type 0} → M A → A → M A
unfolding or_else
recover m a d = or_else a (m d)

-- A call whose error the caller looks at.
unfoldable pub attempt : {A : Type 0} → M A → M (Result A)
attempt m d = let (r, d') = m d in (ok r, d')

abbrev pub tick : Db → Db
tick d = record d { calls = suc d.calls }

-- What a statement does to the tables, with its answer: an error leaves them alone.
abbrev pub Statement : Type 0 → Type 0
Statement A = Tables → Result (A × Tables)

unfoldable pub answer : {A : Type 0} → Db → Result (A × Tables) → Result A × Db
answer d (ok (a, t)) = (ok a, record (tick d) { tables = t })
answer d (err e) = (err e, tick d)

-- One statement is sent to the database.
unfoldable pub send : {A : Type 0} → Statement A → M A
unfolding answer
send s d = if d.faults d.calls then (err db_failure, tick d) else answer d (s d.tables)

-- BEGIN or COMMIT.
abbrev pub control : Statement (Unit {0})
control t = ok (tt, t)

-- COMMIT after a body that returned, ROLLBACK to the tables of `before` after one that failed.
unfoldable pub finish : {A : Type 0} → Db → Result A × Db → Result A × Db
unfolding send
finish before (err e, d) = (err e, record d { tables = before.tables })
finish before (ok a, d) =
    let (r, d') = send control d in
    elim r [ ok _ ↦ (ok a, d') | err e ↦ (err e, record d' { tables = before.tables }) ]

-- `DB.Transaction(body)`.
unfoldable pub transaction : {A : Type 0} → M A → M A
unfolding finish
transaction body = do send control; λ d. finish d (body d)
