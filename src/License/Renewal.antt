-- ===== src/License/Renewal.antt =====
-- `Renew` of internal/handler/license.go: what a renewed licence is worth.
use mathlib.Core.Path.{subst}
use license_server_ai.Base.{
  ℕ, ◌+◌, ◌*◌, ◌≤◌, ◌≡◌, refl, sym, ◌⊎◌, inl, inr, String, true, ◌||◌, some, arith, eq_iff,
}
use license_server_ai.Base.Int.{negsuc, eqb_ℤ}
use license_server_ai.Model.License.{
  License, LicenseEvent, renewed_event, active, expired, revoked, license_status_eq, is_valid,
}
use license_server_ai.Database.Core.{Db, Tables, save_failed, event_failed, license_not_found}
use license_server_ai.Database.Ends.{Ends, returns, raises, Ends-if, Ends-bind}
use license_server_ai.License.Store.{
  Actor, find_license, find_license-id, find_license-save_row, scoped_in, first_license,
  save_license, create_event, with_license, with_event, failing_as,
}
use license_server_ai.License.Handlers.{renew, save_with_event, renewed, new_expire_at, day, event}
use license_server_ai.License.Keeps.{failing_as-Ends, write-Ends, read-Ends, scoped-found}

-- The licence is stored as it is, whatever else changed.
abbrev pub Stored : String → License → Tables → Type 0
Stored id l t = find_license id t.licenses ≡ some l

new_expire_at-late : (now days : ℕ) (l : License) → now + days * day ≤ new_expire_at now days l
new_expire_at-late now days l = ground arith

renewed-valid :
    (now days t : ℕ) (l : License)
    → (license_status_eq l.status active || license_status_eq l.status expired) ≡ true
    → t ≤ now + days * day
    → is_valid t (renewed now days l) ≡ true
unfolding is_valid renewed
renewed-valid now days t l live early = ground (arith, new_expire_at-late now days l)

-- A renewal that ran leaves the licence stored, active and valid at the time.
pub record Renewal (id : String) (t : ℕ) (n : License) (u : Tables) : Type 0 where
  pub stored : Stored id n u
  pub valid : is_valid t n ≡ true
  pub running : license_status_eq n.status active ≡ true

Stored-save :
    (id : String) (l n : License) (u : Tables)
    → Stored id l u
    → n.id ≡ l.id
    → Stored id n (with_license n u)
Stored-save id l n u h same =
    let key = find_license-id id u.licenses l h in
    ground (arith, find_license-save_row id n u.licenses, eq_iff n.id id)

renewed-running :
    (now days : ℕ) (l : License)
    → (license_status_eq l.status active || license_status_eq l.status expired) ≡ true
    → license_status_eq (renewed now days l).status active ≡ true
unfolding renewed
renewed-running now days l live = ground arith

renewed-id : (now days : ℕ) (l : License) → (renewed now days l).id ≡ l.id
unfolding renewed
renewed-id now days l = refl

saved-Renewal :
    (id : String) (days now t : ℕ) (d : Db) (l : License) (e : LicenseEvent)
    → Stored id l d.tables
    → (license_status_eq l.status active || license_status_eq l.status expired) ≡ true
    → t ≤ now + days * day
    → Ends
        (Renewal id t)
        (λ u. Stored id l u ⊎ Stored id (renewed now days l) u)
        (save_with_event (renewed now days l) e d)
unfolding save_with_event save_license create_event
saved-Renewal id days now t d l e there live early =
    let n = renewed now days l in
    let E : Tables → Type 0 = λ u. Stored id l u ⊎ Stored id n u in
    Ends-bind (λ _. Stored id n) (failing_as save_failed (save_license n)) _ d
      (failing_as-Ends _ E save_failed (save_license n) d (
        write-Ends (Stored id n) E (with_license n) d
          (Stored-save id l n d.tables there (renewed-id now days l)) (inl there)))
      λ _ d' saved.
        Ends-bind (λ _. Stored id n) (failing_as event_failed (create_event e)) _ d'
          (failing_as-Ends _ E event_failed (create_event e) d'
            (write-Ends (Stored id n) E (with_event e) d' saved (inr saved)))
          λ _ d'' stored. returns (record {
            stored = stored;
            valid = renewed-valid now days t l live early;
            running = renewed-running now days l live;
          })

-- The call on a licence of the actor that is active or expired gives a licence that is stored, active
-- and valid at every time up to the paid days from now. If it fails, the licence is stored as it was,
-- or renewed with only the record of the event missing.
pub renew-Renewal :
    (a : Actor) (id : String) (days now t : ℕ) (d : Db) (l : License)
    → scoped_in a id d.tables ≡ some l
    → (license_status_eq l.status active || license_status_eq l.status expired) ≡ true
    → t ≤ now + days * day
    → Ends
        (Renewal id t)
        (λ u. Stored id l u ⊎ Stored id (renewed now days l) u)
        (renew a id days now d)
unfolding renew first_license
renew-Renewal a id days now t d l found live early =
    let there : Stored id l d.tables =
      scoped-found a id d.tables (find_license id d.licenses) l found in
    Ends-bind (λ m u. (m ≡ l) × Stored id l u) (failing_as license_not_found (first_license a id)) _
      d
      (failing_as-Ends _ _ license_not_found _ d
        (read-Ends _ _ (scoped_in a id) d (λ m found'. (cc, there)) (inl there)))
      λ m d' have.
        Ends-if (license_status_eq m.status revoked) _ _ d' (λ _. raises (inl have.1))
          λ _.
            Ends-if (eqb_ℤ m.duration_days (negsuc 0)) _ _ d' (λ _. raises (inl have.1))
              λ _.
                subst
                  (λ x.
                    Ends (Renewal id t) (λ u. Stored id l u ⊎ Stored id (renewed now days l) u)
                      (save_with_event (renewed now days x) (event x renewed_event "") d'))
                  (sym have.0)
                  (saved-Renewal id days now t d' l (event l renewed_event "") have.1 live early)
