-- ===== src/Activation/Admission.antt =====
-- What the transaction of `Activate`, internal/handler/client.go, admits.
use mathlib.Core.Path.{subst}
use license_server_ai.Base.{ℕ, ◌≡◌, refl, sym, ◌⊎◌, inl, inr, String, false, some, List, str_eq}
use license_server_ai.Model.License.{
  License, pending, expired, suspended, revoked, license_status_eq,
}
use license_server_ai.Model.Device.{Device}
use license_server_ai.Database.Core.{Db, Tables, ◌>>◌, tick, pure, raise, recover, license_expired}
use license_server_ai.Database.Ends.{
  Ends, Ends-mono, returns, raises, Ends-if, Ends-bind, first-then, act-then, transaction-Ends,
  recover-Ends,
}
use license_server_ai.License.Store.{
  find_by_key, save_license, create_event, with_license, with_event,
}
use license_server_ai.License.Keeps.{write-Ends}
use license_server_ai.Activation.Devices.{UniqueIds}
use license_server_ai.Activation.Activate.{
  Request, activated, activation_event, start_license, is_expired, bind_device, activate_body,
  activate_transaction, with_customer,
}
use license_server_ai.Activation.Bound.{WithinLimit, bind_device-Ends}

-- The licence that goes on: as it was, or activated just now.
abbrev Started : Request → ℕ → License → License → Type 0
Started req now l n = (l ≡ n) ⊎ (activated req now l ≡ n)

start_license-Ends :
    (req : Request) (now : ℕ) (l : License) (d : Db)
    → Ends
        (λ n t. Started req now l n × (t.devices ≡ d.devices))
        (λ _. Unit)
        (start_license req now l d)
unfolding start_license create_event
start_license-Ends req now l d =
    Ends-if (license_status_eq l.status pending) _ _ d
      (λ _.
        act-then (λ _. tt) (with_event (activation_event l)) (λ _. pure (activated req now l)) d
          (returns (inr refl, refl)) tt)
      (λ _. returns (inl refl, refl))

WithinLimit-Started :
    (req : Request) (now : ℕ) (l n : License) (before after : List Device)
    → Started req now l n
    → WithinLimit n before after
    → WithinLimit l before after
WithinLimit-Started req now l n before after (inl e) h =
    subst (λ x. WithinLimit x before after) (sym e) h
WithinLimit-Started req now l n before after (inr e) h =
    subst (λ x. WithinLimit x before after) (sym e) h

-- The licence was neither revoked nor suspended, the licence that is returned has not run out, and its
-- devices are no more than before or within its limit.
pub record Admitted (now : ℕ) (l : License) (before : List Device) (n : License) (t : Tables)
    : Type 0 where
  pub not_revoked : license_status_eq l.status revoked ≡ false
  pub not_suspended : license_status_eq l.status suspended ≡ false
  pub not_expired : is_expired now n ≡ false
  pub within : WithinLimit l before t.devices

reject-Ends :
    {Q : License → Tables → Type 0} (now : ℕ) (n : License) (d : Db)
    → Ends Q
        (λ _. Unit)
        ((recover (save_license (record n { status = expired })) tt >> raise license_expired) d)
unfolding save_license
reject-Ends {Q} now n d =
    Ends-bind (λ _ _. Unit) (recover (save_license (record n { status = expired })) tt) _ d
      (recover-Ends _ tt d
        (write-Ends (λ _. Unit) (λ _. Unit) (with_license (record n { status = expired })) d tt tt)
        (λ _ _. tt))
      λ _ _ _. raises tt

admit-Ends :
    (req : Request) (customer : String) (now : ℕ) (l m n : License) (d d' : Db)
    → m ≡ l
    → license_status_eq m.status revoked ≡ false
    → license_status_eq m.status suspended ≡ false
    → is_expired now n ≡ false
    → Started req now m n × (d'.devices ≡ d.devices)
    → UniqueIds d.devices
    → Ends (Admitted now l d.devices) (λ _. Unit) (bind_device req customer now n d')
admit-Ends req customer now l m n d d' same live free current have unique =
    Ends-mono _
      (λ r t bound. record {
        not_revoked = subst (λ x. license_status_eq x.status revoked ≡ false) same live;
        not_suspended = subst (λ x. license_status_eq x.status suspended ≡ false) same free;
        not_expired = subst (λ x. is_expired now x ≡ false) bound.0 current;
        within =
            subst (λ x. WithinLimit x d.devices t.devices) same
              (WithinLimit-Started req now m n d.devices t.devices have.0
                (subst (λ ds. WithinLimit n ds t.devices) have.1 bound.1));
      })
      (bind_device-Ends req customer now n d' (subst UniqueIds (sym have.1) unique))

-- For a stored licence, where ids of devices are unique, the transaction of `Activate` returns only if
-- the licence was neither revoked nor suspended and, as it is returned, has not run out, and its
-- devices are then no more than before or within its limit. If the transaction fails, at any check or
-- statement, no table changes: so a licence that is found to have run out is not marked so.
pub activate_transaction-Admitted :
    (req : Request) (now : ℕ) (d : Db) (l : License)
    → find_by_key req.license_key req.app_id d.licenses ≡ some l
    → UniqueIds d.devices
    → Ends (Admitted now l d.devices) (λ t. t ≡ d.tables) (activate_transaction req now d)
unfolding activate_transaction activate_body save_license
activate_transaction-Admitted req now d l found unique = transaction-Ends _ d refl (
    first-then (λ t. find_by_key req.license_key req.app_id t.licenses) _ (tick d)
      (λ m found'.
        let same : m ≡ l = cc in
        Ends-if (str_eq (with_customer m.customer_id) "") _ _ (tick (tick d)) (λ _. raises tt)
          λ _.
            Ends-if (license_status_eq m.status revoked) _ _ (tick (tick d)) (λ _. raises tt)
              λ live.
                Ends-if (license_status_eq m.status suspended) _ _ (tick (tick d)) (λ _. raises tt)
                  λ free.
                    Ends-bind (λ n t. Started req now m n × (t.devices ≡ d.devices))
                      (start_license req now m) _ (tick (tick d))
                      (start_license-Ends req now m (tick (tick d)))
                      λ n d' have.
                        Ends-if (is_expired now n) _ _ d' (λ _. reject-Ends now n d')
                          (λ current.
                            admit-Ends req (with_customer m.customer_id) now l m n d d' same live
                              free current have unique))
      tt)
