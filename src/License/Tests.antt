-- ===== src/License/Tests.antt =====
-- The life of a licence on concrete tables.
use license_server_ai.Base.{◌⊎◌, refl, true, false, none, some, List, [], ◌∷◌, arith, ◌==◌}
use license_server_ai.Base.Int.{pos}
use license_server_ai.Model.License.{License, active}
use license_server_ai.Model.Sync.{no_sync_tables}
use license_server_ai.Database.Core.{Db, Tables}
use license_server_ai.Database.Ends.{Ends}
use license_server_ai.License.Store.{Actor, find_license, in_scope}
use license_server_ai.License.Handlers.{suspend, resume, renew, renewed, revoked_as}
use license_server_ai.License.Trace.{
  Call, renew_call, revoke_call, suspend_call, resume_call, delete_call, run, Dead, run-Dead,
}
use license_server_ai.License.Success.{BackAgain, suspend-resume}
use license_server_ai.License.Renewal.{Renewal, Stored, renew-Renewal}

abbrev admin : Actor
admin = record { tenant_id = "acme"; user_id = "root"; is_tenant_admin = true }

abbrev license : License
license = record {
  id = "l1";
  tenant_id = "acme";
  app_id = "app";
  customer_id = some "carl";
  license_key = "KEY";
  duration_days = pos 30;
  max_devices = pos 2;
  unbind_limit = pos 5;
  unbind_used = pos 0;
  activated_at = some 0;
  expire_at = some 1000;
  grace_expire_at = none;
  last_validated_at = none;
  status = active;
  suspended_reason = "";
  revoked_reason = "";
  features = "[]";
  notes = "";
}

abbrev tables_of : License → Tables
tables_of l = record {
  user_credits = [];
  credit_transactions = [];
  generation_tasks = [];
  team_members = [];
  customers = [];
  licenses = l ∷ [];
  license_events = [];
  devices = [];
  sync = no_sync_tables;
  provider_credentials = [];
}

abbrev db : License → Db
db l = record { tables = tables_of l; faults = λ n. n == 2; calls = 0 }

abbrev calls : List Call
calls =
    suspend_call admin "l1" "late"
    ∷ renew_call admin "l1" 30 2000
    ∷ resume_call admin "l1"
    ∷ delete_call admin "l1"
    ∷ revoke_call admin "l1" "fraud"
    ∷ renew_call admin "l1" 30 3000
    ∷ []

abbrev gone : License
gone = revoked_as "fraud" license

run-Dead_example : Dead gone (find_license "l1" (run calls (db gone)).licenses)
unfolding find_license
run-Dead_example = run-Dead "l1" gone calls (db gone) refl refl

renew-Renewal_example :
    Ends
      (Renewal "l1" 5000)
      (λ u. Stored "l1" license u ⊎ Stored "l1" (renewed 2000 30 license) u)
      (renew admin "l1" 30 2000 (db license))
unfolding find_license in_scope
renew-Renewal_example =
    renew-Renewal admin "l1" 30 2000 5000 (db license) license refl refl (omega arith)

abbrev healthy_db : Db
healthy_db = record { tables = tables_of license; faults = λ n. false; calls = 0 }

suspend-resume_example :
    BackAgain admin "l1" license healthy_db.tables
      (suspend admin "l1" "late" healthy_db).1.tables
      (resume admin "l1" (suspend admin "l1" "late" healthy_db).1).0
      (resume admin "l1" (suspend admin "l1" "late" healthy_db).1).1.tables
unfolding find_license in_scope
suspend-resume_example = suspend-resume admin "l1" "late" license healthy_db (λ n. refl) refl refl
