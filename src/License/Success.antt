-- ===== src/License/Success.antt =====
-- Calls of internal/handler/license.go that must succeed, one after the other.
use license_server_ai.Base.{
  ℕ, arith, [], ◌∷◌, ◌≡◌, refl, sym, ap, ◌∙◌, String, true, false, some, str_eq, eq_iff, List,
  Option, none, Bool-cases, inl, inr, if◌then◌else◌,
}
use mathlib.Core.Path.{subst}
use license_server_ai.Model.License.{
  License, LicenseEvent, LicenseStatus, pending, active, expired, suspended, revoked,
  license_status_eq, is_valid,
}
use license_server_ai.Database.Core.{
  Db, Tables, Customer, M, Error, Result, ok, ◌>>=◌, save_failed, event_failed, license_not_found,
}
use license_server_ai.Database.Statements.{first}
use license_server_ai.Database.Success.{
  Healthy, Succeeds, succeeds, Succeeds-result, then-Succeeds, send-Succeeds, bind-Succeeds,
}
use license_server_ai.License.Store.{
  Actor, scoped, scoped_in, in_scope, first_license, save_license, create_event, with_license,
  with_event, failing_as, replied, find_license, find_license-id, find_license-save_row, save_row,
}
use license_server_ai.License.Handlers.{suspend, resume, save_with_event, suspended_as, resumed}

failing_as-Succeeds :
    {A : Type 0} {Q : A → Tables → Type 0} (e : Error) (m : M A) (d : Db)
    → Succeeds Q (m d)
    → Succeeds Q (failing_as e m d)
unfolding failing_as replied
failing_as-Succeeds {A} {Q} e m d h = go (m d) h
  where
    go : (r : Result A × Db) → Succeeds Q r → Succeeds Q (replied e r)
    go r (succeeds healthy q) = succeeds healthy q

-- The licence is loaded, and the rest of the call runs on it and on the same tables.
loaded-Succeeds :
    (Q : License → Tables → Type 0) (a : Actor) (id : String) (l : License)
    (k : License → M License) (d : Db)
    → Healthy d
    → scoped_in a id d.tables ≡ some l
    → ((d' : Db) → Healthy d' → d'.tables ≡ d.tables → Succeeds Q (k l d'))
    → Succeeds Q ((failing_as license_not_found (first_license a id) >>= k) d)
unfolding first_license
loaded-Succeeds Q a id l k d healthy found each =
    bind-Succeeds (λ m t. (l ≡ m) × (t ≡ d.tables))
      (failing_as license_not_found (first_license a id)) k d
      (failing_as-Succeeds license_not_found (first_license a id) d
        (send-Succeeds _ d l d.tables healthy (ap (first d.tables) found) (refl, refl)))
      λ m d' h e. subst (λ x. Succeeds Q (k x d')) e.0 (each d' h e.1)

str_eq_refl : (s : String) → str_eq s s ≡ true
str_eq_refl s = (eq_iff s s).1 refl

-- The licence is what the call returns, its row is saved over the rows that were there, and the
-- customers are as they were.
abbrev Written : License → Tables → License → Tables → Type 0
Written l t n u = (l ≡ n) × (u.licenses ≡ save_row l t.licenses) × (u.customers ≡ t.customers)

save_with_event-Written :
    (l : License) (e : LicenseEvent) (d : Db) (t : Tables)
    → Healthy d
    → d.tables ≡ t
    → Succeeds (Written l t) (save_with_event l e d)
unfolding save_with_event save_license create_event
save_with_event-Written l e d t healthy same =
    let P : Tables → Type 0 =
      λ u. (u.licenses ≡ save_row l t.licenses) × (u.customers ≡ t.customers) in
    bind-Succeeds (λ _. P) (failing_as save_failed (save_license l)) _ d
      (failing_as-Succeeds save_failed (save_license l) d (
        send-Succeeds _ d tt (with_license l d.tables) healthy refl
          (ap (λ u. save_row l u.licenses) same, ap (λ u. u.customers) same)))
      λ _ d1 h1 p1.
        bind-Succeeds (λ _. P) (failing_as event_failed (create_event e)) _ d1
          (failing_as-Succeeds event_failed (create_event e) d1
            (send-Succeeds _ d1 tt (with_event e d1.tables) h1 refl p1))
          λ _ d2 h2 p2. succeeds h2 (refl, p2.0, p2.1)

module _ (a : Actor) (id : String) (l : License) (d : Db) (healthy : Healthy d)
    (found : scoped_in a id d.tables ≡ some l) where
  suspend-Written :
      (reason : String)
      → license_status_eq l.status active ≡ true
      → Succeeds (Written (suspended_as reason l) d.tables) (suspend a id reason d)
  unfolding suspend
  suspend-Written reason running =
      loaded-Succeeds (Written (suspended_as reason l) d.tables) a id l _ d healthy found
        λ d' h same.
          then-Succeeds _ _ _ d' running
            (save_with_event-Written (suspended_as reason l) _ d' d.tables h same)

  resume-Written :
      license_status_eq l.status suspended ≡ true
      → Succeeds (Written (resumed l) d.tables) (resume a id d)
  unfolding resume
  resume-Written held =
      loaded-Succeeds (Written (resumed l) d.tables) a id l _ d healthy found λ d' h same.
        then-Succeeds _ _ _ d' held (save_with_event-Written (resumed l) _ d' d.tables h same)

scoped_parts :
    (a : Actor) (cs : List Customer) (l : License) (o : Option License)
    → scoped a cs o ≡ some l
    → (o ≡ some l) × (in_scope a cs l ≡ true)
scoped_parts a cs l none h = cc
scoped_parts a cs l (some m) h = elim (Bool-cases (in_scope a cs m)) [
  | inl b ↦
      let same : some m ≡ some l = ap (λ x. if x then some m else none) (sym b) ∙ h in
      (same, subst (λ x. in_scope a cs x ≡ true) (cc) b)
  | inr b ↦ let wrong = ap (λ x. if x then some m else none) (sym b) ∙ h in cc
]

active_lem : (s : LicenseStatus) → license_status_eq s active ≡ true → s ≡ active
active_lem active h = refl
active_lem pending h = cc
active_lem expired h = cc
active_lem suspended h = cc
active_lem revoked h = cc

-- A saved licence is found again by its actor, where it is in the scope.
refound :
    (a : Actor) (id : String) (l n : License) (t u : Tables)
    → scoped_in a id t ≡ some l
    → n.id ≡ l.id
    → in_scope a t.customers n ≡ in_scope a t.customers l
    → u.licenses ≡ save_row n t.licenses
    → u.customers ≡ t.customers
    → scoped_in a id u ≡ some n
refound a id l n t u found same scope saved kept =
    let (here, inside) = scoped_parts a t.customers l (find_license id t.licenses) found in
    let named : str_eq n.id id ≡ true =
      (eq_iff n.id id).1 (same ∙ find_license-id id t.licenses l here) in
    ap (λ ls. scoped a u.customers (find_license id ls)) saved
    ∙ ap (scoped a u.customers) {y = some n} (find_license-save_row id n t.licenses ∙ rw named refl)
    ∙ ap (λ cs. if in_scope a cs n then some n else none) kept
    ∙ rw (scope, inside) refl

save_row-save_row :
    (m n : License) (ls : List License) → n.id ≡ m.id → save_row n (save_row m ls) ≡ save_row n ls
unfolding save_row
save_row-save_row m n [] e = ground (arith, eq_iff m.id n.id)
save_row-save_row m n (x ∷ xs) e =
    ground (arith, save_row-save_row m n xs e, eq_iff m.id n.id, eq_iff x.id m.id, eq_iff x.id n.id)

abbrev pub back : License → License
back l = record l { suspended_reason = "" }

-- From the tables before the suspension to those after it, and on to those after the resumption with
-- its result.
pub record BackAgain (a : Actor) (id : String) (l : License) (before between : Tables)
    (r : Result License) (after : Tables) : Type 0 where
  pub held : License
  pub stored_held : scoped_in a id between ≡ some held
  pub is_held : held.status ≡ suspended
  pub invalid : (now : ℕ) → is_valid now held ≡ false
  pub returned : r ≡ ok (back l)
  pub stored : scoped_in a id after ≡ some (back l)
  pub rows : after.licenses ≡ save_row (back l) before.licenses

-- A suspension and then a resumption, of an active licence in the actor's scope, where no statement
-- fails: between them the licence is stored, suspended and at no time valid; afterwards it is
-- returned and stored as it was before, but for an empty reason, and no other licence has changed.
pub suspend-resume :
    (a : Actor) (id reason : String) (l : License) (d : Db)
    → Healthy d
    → scoped_in a id d.tables ≡ some l
    → license_status_eq l.status active ≡ true
    → BackAgain a id l d.tables
        (suspend a id reason d).1.tables
        (resume a id (suspend a id reason d).1).0
        (resume a id (suspend a id reason d).1).1.tables
unfolding in_scope is_valid
suspend-resume a id reason l d healthy found running =
    let between = (suspend a id reason d).1 in
    let held = suspended_as reason l in
    let (m, _, healthy', w) =
      Succeeds-result (suspend-Written a id l d healthy found reason running) in
    let found' : scoped_in a id between.tables ≡ some held =
      refound a id l held d.tables between.tables found refl refl w.1 w.2 in
    let (n, e, _, v) = Succeeds-result (resume-Written a id held between healthy' found' refl) in
    let whole : resumed held ≡ back l =
      ap (λ s. record l { status = s; suspended_reason = "" })
        (sym (active_lem l.status running)) in
    record {
      held = held;
      stored_held = found';
      is_held = refl;
      invalid = λ now. refl;
      returned = e ∙ ap ok (sym v.0 ∙ whole);
      stored =
          refound a id held (resumed held) between.tables (resume a id between).1.tables found' refl
            refl v.1 v.2
          ∙ ap some whole;
      rows =
          v.1
          ∙ ap (save_row (resumed held)) w.1
          ∙ save_row-save_row held (resumed held) d.licenses refl
          ∙ ap (λ x. save_row x d.licenses) whole;
    }
