-- ===== src/Activation/Tests.antt =====
-- An activation on concrete tables.
use license_server_ai.Base.{◌≡◌, refl, false, none, some, [], ◌∷◌}
use license_server_ai.Base.Int.{pos}
use license_server_ai.Model.License.{License, pending}
use license_server_ai.Model.Device.{Device, DeviceInfo, active_device}
use license_server_ai.Model.Sync.{no_sync_tables}
use license_server_ai.Database.Core.{Db}
use license_server_ai.Database.Ends.{Ends}
use license_server_ai.License.Store.{find_by_key}
use license_server_ai.Activation.Devices.{find_by_id}
use license_server_ai.Activation.Activate.{Request, activate_transaction}
use license_server_ai.Activation.Admission.{Admitted, activate_transaction-Admitted}

abbrev license : License
license = record {
  id = "l1";
  tenant_id = "acme";
  app_id = "app";
  customer_id = some "carl";
  license_key = "KEY";
  duration_days = pos 30;
  max_devices = pos 2;
  unbind_limit = pos 5;
  unbind_used = pos 0;
  activated_at = none;
  expire_at = none;
  grace_expire_at = none;
  last_validated_at = none;
  status = pending;
  suspended_reason = "";
  revoked_reason = "";
  features = "[]";
  notes = "";
}

abbrev info : DeviceInfo
info = record {
  name = "desk";
  hostname = "desk";
  os = "linux";
  os_version = "6";
  app_version = "1";
}

abbrev device : Device
device = record {
  id = "d1";
  tenant_id = "acme";
  customer_id = "carl";
  license_id = some "l1";
  machine_id = "m1";
  info = info;
  ip_address = "";
  device_status = active_device;
  last_active_at = none;
  deleted_at = none;
}

abbrev db : Db
db = record {
  tables = record {
    user_credits = [];
    credit_transactions = [];
    generation_tasks = [];
    team_members = [];
    customers = [];
    licenses = license ∷ [];
    license_events = [];
    devices = device ∷ [];
    sync = no_sync_tables;
    provider_credentials = [];
  };
  faults = λ n. false;
  calls = 0;
}

abbrev request : Request
request = record {
  license_key = "KEY";
  app_id = "app";
  grace_period_days = 3;
  machine_id = "m2";
  info = info;
  ip = "";
  new_device_id = "d2";
}

activate_transaction-Admitted_example :
    Ends
      (Admitted 1000 license db.devices)
      (λ t. t ≡ db.tables)
      (activate_transaction request 1000 db)
unfolding find_by_key find_by_id
activate_transaction-Admitted_example =
    activate_transaction-Admitted request 1000 db license refl (refl, tt)
