-- ===== src/License/Keeps.antt =====
-- Each call of internal/handler/license.go takes a licence one step further, deletes it while it is
-- pending, or leaves it alone; also when a statement fails between the two writes of a call.
use license_server_ai.Base.{
  ℕ, ◌≡◌, refl, sym, ap, ◌∙◌, String, Bool, true, false, Option, none, some, arith, if◌then◌else◌,
}
use license_server_ai.Base.Int.{pos, negsuc, eqb_ℤ}
use license_server_ai.Model.License.{
  License, LicenseEvent, pending, active, suspended, revoked, license_status_eq,
}
use license_server_ai.Database.Core.{
  Db, Tables, M, Error, Result, ok, err, ◌>>◌, send, answer, tick, db_failure, save_failed,
  event_failed, pure,
}
use license_server_ai.Database.Ends.{Ends, returns, raises, Ends-if, Ends-bind}
use license_server_ai.Database.Statements.{first}
use license_server_ai.License.Store.{
  Actor, find_license, find_license-id, scoped, scoped_in, first_license, save_license,
  create_event, delete_events, delete_license, with_license, with_event, without_events,
  without_license, failing_as, replied,
}
use license_server_ai.License.Handlers.{
  renew, revoke, suspend, resume, update, reset_unbind_count, delete, save_with_event, updated,
  UpdateLicenseRequest, too_small, any_given,
}
use license_server_ai.License.Life.{Step, renews, revokes, suspends, resumes, updates, resets}
use license_server_ai.License.Steps.{Later, Later-save_row, Later-delete_row}

pub failing_as-Ends :
    {A : Type 0} (Q : A → Tables → Type 0) (E : Tables → Type 0) (e : Error) (m : M A) (d : Db)
    → Ends Q E (m d)
    → Ends Q E (failing_as e m d)
unfolding failing_as replied
failing_as-Ends Q E e m d h = go (m d) h
  where
    go : (r : Result _ × Db) → Ends Q E r → Ends Q E (replied e r)
    go r (returns q) = returns q
    go r (raises x) = raises x

-- A write: it fails and changes nothing, or it makes its change.
pub write-Ends :
    (Q E : Tables → Type 0) (w : Tables → Tables) (d : Db)
    → Q (w d.tables)
    → E d.tables
    → Ends (λ _. Q) E (send (λ t. ok (tt, w t)) d)
unfolding send answer
write-Ends Q E w d h k = go (d.faults d.calls)
  where
    go :
        (b : Bool)
        → Ends
            (λ _. Q)
            E
            (if b
              then (err db_failure, tick d)
              else (ok tt, record (tick d) { tables = w d.tables }))
    go true = raises k
    go false = returns h

-- A read of a row that has to be there.
pub read-Ends :
    {A : Type 0} (Q : A → Tables → Type 0) (E : Tables → Type 0) (g : Tables → Option A) (d : Db)
    → ((a : A) → g d.tables ≡ some a → Q a d.tables)
    → E d.tables
    → Ends Q E (send (λ t. first t (g t)) d)
unfolding send answer
read-Ends {A} Q E g d h k = go (d.faults d.calls) (g d.tables) h
  where
    go :
        (b : Bool) (o : Option A)
        → ((a : A) → o ≡ some a → Q a d.tables)
        → Ends Q E (if b then (err db_failure, tick d) else answer d (first d.tables o))
    go true o found = raises k
    go false none found = raises k
    go false (some a) found = returns (found a refl)

pub scoped-found :
    (a : Actor) (id : String) (t : Tables) (o : Option License) (l : License)
    → scoped a t.customers o ≡ some l
    → o ≡ some l
scoped-found a id t none l h = h
scoped-found a id t (some m) l h = ground arith

module _ (id : String) (l : License) where
  -- What the licence has become.
  abbrev pub Life : Tables → Type 0
  Life t = Later l (find_license id t.licenses)

  abbrev Found : License → Tables → Type 0
  Found m t = Life t × (find_license m.id t.licenses ≡ some m)

  -- The read that every handler starts with.
  pub loaded-Ends :
      (a : Actor) (i : String) (e : Error) (d : Db)
      → Life d.tables
      → Ends (λ m t. Found m t × (m.id ≡ i)) Life (failing_as e (first_license a i) d)
  unfolding first_license
  loaded-Ends a i e d h = failing_as-Ends _ Life e (first_license a i) d (
      read-Ends _ Life (scoped_in a i) d
        (λ m found.
          let there = scoped-found a i d.tables (find_license i d.licenses) m found in
          let same = find_license-id i d.licenses m there in
          ((h, ap (λ j. find_license j d.licenses) same ∙ there), same))
        h)

  -- A licence that was read is saved in its next state, with an event.
  pub save_with_event-Ends :
      (m n : License) (e : LicenseEvent) (d : Db)
      → Found m d.tables
      → Step m n
      → Ends (λ _. Life) Life (save_with_event n e d)
  unfolding save_with_event save_license create_event
  save_with_event-Ends m n e d (h, found) s =
      Ends-bind (λ _. Life) (failing_as save_failed (save_license n)) _ d
        (failing_as-Ends _ Life save_failed (save_license n) d (
          write-Ends Life Life (with_license n) d (Later-save_row id l m n d.licenses h found s) h))
        λ _ d' h'.
          Ends-bind (λ _. Life) (failing_as event_failed (create_event e)) _ d'
            (failing_as-Ends _ Life event_failed (create_event e) d'
              (write-Ends Life Life (with_event e) d' h' h'))
            λ _ d'' h''. returns h''

  pub renew-Ends :
      (a : Actor) (i : String) (days now : ℕ) (d : Db)
      → Life d.tables
      → Ends (λ _. Life) Life (renew a i days now d)
  unfolding renew
  renew-Ends a i days now d h = Ends-bind _ _ _ d (loaded-Ends a i _ d h) λ m d' have.
      Ends-if (license_status_eq m.status revoked) _ _ d' (λ _. raises have.0.0)
        λ live.
          Ends-if (eqb_ℤ m.duration_days (negsuc 0)) _ _ d' (λ _. raises have.0.0)
            λ limited. save_with_event-Ends m _ _ d' have.0 (renews now days m live limited)

  pub revoke-Ends :
      (a : Actor) (i reason : String) (d : Db)
      → Life d.tables
      → Ends (λ _. Life) Life (revoke a i reason d)
  unfolding revoke
  revoke-Ends a i reason d h = Ends-bind _ _ _ d (loaded-Ends a i _ d h) λ m d' have.
      Ends-if (license_status_eq m.status revoked) _ _ d' (λ _. raises have.0.0)
        λ live. save_with_event-Ends m _ _ d' have.0 (revokes reason m live)

  pub suspend-Ends :
      (a : Actor) (i reason : String) (d : Db)
      → Life d.tables
      → Ends (λ _. Life) Life (suspend a i reason d)
  unfolding suspend
  suspend-Ends a i reason d h = Ends-bind _ _ _ d (loaded-Ends a i _ d h) λ m d' have.
      Ends-if (license_status_eq m.status active) _ _ d'
        (λ running. save_with_event-Ends m _ _ d' have.0 (suspends reason m running))
        (λ _. raises have.0.0)

  pub resume-Ends :
      (a : Actor) (i : String) (d : Db) → Life d.tables → Ends (λ _. Life) Life (resume a i d)
  unfolding resume
  resume-Ends a i d h = Ends-bind _ _ _ d (loaded-Ends a i _ d h) λ m d' have.
      Ends-if (license_status_eq m.status suspended) _ _ d'
        (λ held. save_with_event-Ends m _ _ d' have.0 (resumes m held)) (λ _. raises have.0.0)

  -- A licence that was read is saved in its next state, without an event.
  pub saved-Ends :
      (m n o : License) (d : Db)
      → Found m d.tables
      → Step m n
      → Ends (λ _. Life) Life ((failing_as save_failed (save_license n) >> pure o) d)
  unfolding save_license
  saved-Ends m n o d (h, found) s =
      Ends-bind (λ _. Life) (failing_as save_failed (save_license n)) _ d
        (failing_as-Ends _ Life save_failed (save_license n) d (
          write-Ends Life Life (with_license n) d (Later-save_row id l m n d.licenses h found s) h))
        λ _ d' h'. returns h'

  pub update-Ends :
      (a : Actor) (i : String) (req : UpdateLicenseRequest) (d : Db)
      → Life d.tables
      → Ends (λ _. Life) Life (update a i req d)
  unfolding update
  update-Ends a i req d h = Ends-bind _ _ _ d (loaded-Ends a i _ d h) λ m d' have.
      Ends-if (too_small (pos 1) req.max_devices) _ _ d' (λ _. raises have.0.0)
        λ devices.
          Ends-if (too_small (pos 0) req.unbind_limit) _ _ d' (λ _. raises have.0.0)
            λ unbinds.
              Ends-if (any_given req) _ _ d'
                (λ _. saved-Ends m (updated req m) _ d' have.0 (updates req m devices unbinds))
                (λ _. returns have.0.0)

  pub reset_unbind_count-Ends :
      (a : Actor) (i : String) (d : Db)
      → Life d.tables
      → Ends (λ _. Life) Life (reset_unbind_count a i d)
  unfolding reset_unbind_count
  reset_unbind_count-Ends a i d h =
      Ends-bind _ _ _ d (loaded-Ends a i _ d h) λ m d' have. saved-Ends m _ m d' have.0 (resets m)

  pub delete-Ends :
      (a : Actor) (i : String) (d : Db) → Life d.tables → Ends (λ _. Life) Life (delete a i d)
  unfolding delete delete_events delete_license
  delete-Ends a i d h = Ends-bind _ _ _ d (loaded-Ends a i _ d h) λ m d' have.
      Ends-if (license_status_eq m.status pending) _ _ d'
        (λ waiting.
          Ends-bind (λ _ t. Found m t) (failing_as event_failed (delete_events i)) _ d'
            (failing_as-Ends _ Life event_failed (delete_events i) d'
              (write-Ends (Found m) Life (without_events i) d' have.0 have.0.0))
            λ _ d'' found.
              Ends-bind (λ _. Life) (failing_as save_failed (delete_license i)) _ d''
                (failing_as-Ends _ Life save_failed (delete_license i) d'' (
                  write-Ends Life Life (without_license i) d''
                    (Later-delete_row id i l m d''.licenses found.0
                      (ap (λ j. find_license j d''.licenses) (sym have.1) ∙ found.1) waiting)
                    found.0))
                λ _ d3 h3. returns h3)
        (λ _. raises have.0.0)
