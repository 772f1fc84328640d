-- ===== src/Model/Credential.antt =====
-- internal/model/provider_credential.go: the credentials for the upstream providers, without the
-- encrypted key and the columns that only describe a channel.
use license_server_ai.Base.{ℕ, String, Bool, true, false, Option}
use license_server_ai.Base.Int.{ℤ}

pub data CredentialHealth : Type 0 where
  unknown healthy_key degraded down : CredentialHealth

pub record ProviderCredential : Type 0 where
  pub id : String
  pub tenant_id : String
  pub provider : String
  pub mode : String
  pub enabled : Bool
  pub priority : ℤ
  pub health_status : CredentialHealth
  pub last_used_at : Option ℕ

abbrev pub is_down : CredentialHealth → Bool
is_down down = true
is_down _ = false
