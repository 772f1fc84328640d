-- ===== src/Credential/Tests.antt =====
-- The choice of a credential on concrete rows.
use license_server_ai.Base.{codes, ◌≡◌, refl, true, false, some, [], ◌∷◌}
use license_server_ai.Base.Int.{pos}
use license_server_ai.Model.Credential.{ProviderCredential, unknown, degraded, down}
use license_server_ai.Model.Sync.{no_sync_tables}
use license_server_ai.Database.Core.{Db, ok, err, credential_unavailable, ◌>>=◌, send, recover}
use license_server_ai.Database.Statements.{read}
use license_server_ai.Database.Ends.{Ends}
use license_server_ai.Credential.Modes.{normalize_provider_credential_mode}
use license_server_ai.Credential.Selection.{
  select_for_tenant_excluding, select_by_id_for_tenant_use, used_at,
}
use license_server_ai.Credential.Picks.{Picked, select_for_tenant_excluding-Picked}

abbrev first_key : ProviderCredential
first_key = record {
  id = "k1";
  tenant_id = "acme";
  provider = "veo";
  mode = "google";
  enabled = true;
  priority = pos 5;
  health_status = degraded;
  last_used_at = some 40;
}

-- Used less recently than the first one.
abbrev second_key : ProviderCredential
second_key = record first_key { id = "k2"; health_status = unknown; last_used_at = some 30 }

abbrev broken_key : ProviderCredential
broken_key = record first_key { id = "k3"; priority = pos 9; health_status = down }

abbrev db : Db
db = record {
  tables = record {
    user_credits = [];
    credit_transactions = [];
    generation_tasks = [];
    team_members = [];
    customers = [];
    licenses = [];
    license_events = [];
    devices = [];
    sync = no_sync_tables;
    provider_credentials = first_key ∷ second_key ∷ broken_key ∷ [];
  };
  faults = λ n. false;
  calls = 0;
}

unknown_mode : normalize_provider_credential_mode (codes " Veo ") (codes "x") ≡ codes "google"
unfolding normalize_provider_credential_mode
unknown_mode = refl

known_mode :
    normalize_provider_credential_mode (codes "GROK") (codes " SuChuang") ≡ codes "suchuang"
unfolding normalize_provider_credential_mode
known_mode = refl

least_recent : (select_for_tenant_excluding 50 "acme" "veo" "" [] db).0 ≡ ok (used_at 50 second_key)
unfolding select_for_tenant_excluding ◌>>=◌ read send recover
least_recent = refl

without_second :
    (select_for_tenant_excluding 50 "acme" "veo" "other" ("k2" ∷ []) db).0
    ≡ ok (used_at 50 first_key)
unfolding select_for_tenant_excluding ◌>>=◌ read send recover
without_second = refl

broken_by_id :
    (select_by_id_for_tenant_use 50 "acme" "k3" "veo" "" db).0 ≡ err credential_unavailable
unfolding select_by_id_for_tenant_use ◌>>=◌ read send
broken_by_id = refl

select_for_tenant_excluding-Picked_example :
    Ends
      (Picked 50 "acme" "veo" "other" ("k2" ∷ []) db.tables)
      (λ t. t ≡ db.tables)
      (select_for_tenant_excluding 50 "acme" "veo" "other" ("k2" ∷ []) db)
select_for_tenant_excluding-Picked_example =
    select_for_tenant_excluding-Picked 50 "acme" "veo" "other" ("k2" ∷ []) db
