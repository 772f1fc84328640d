-- ===== src/License/Life.antt =====
-- The steps in the life of one licence, column by column: what the calls of
-- internal/handler/license.go may make of it.
use license_server_ai.Base.{
  ℕ, ◌+◌, ◌*◌, ◌<◌, ◌≤◌, ◌≡◌, refl, String, Bool, true, false, ◌||◌, Option, none, some, ◌⊎◌, inl,
  inr, arith, if◌then◌else◌, ltb,
}
use license_server_ai.Base.Int.{ℤ, pos, negsuc, ◌+ℤ◌, eqb_ℤ, ltb_ℤ, wrap64}
use license_server_ai.Model.License.{
  License, LicenseStatus, pending, active, expired, suspended, revoked, license_status_eq,
}
use license_server_ai.License.Handlers.{
  day, past, renewed, revoked_as, suspended_as, resumed, updated, UpdateLicenseRequest, too_small,
  or_kept,
}

-- What no step changes.
pub record Same (l n : License) : Type 0 where
  pub id : n.id ≡ l.id
  pub tenant : n.tenant_id ≡ l.tenant_id
  pub app : n.app_id ≡ l.app_id
  pub customer : n.customer_id ≡ l.customer_id
  pub key : n.license_key ≡ l.license_key
  pub activated : n.activated_at ≡ l.activated_at

pub record SameTerms (l n : License) : Type 0 where
  pub devices : n.max_devices ≡ l.max_devices
  pub unbinds : n.unbind_limit ≡ l.unbind_limit
  pub features : n.features ≡ l.features

pub record SameTime (l n : License) : Type 0 where
  pub expiry : n.expire_at ≡ l.expire_at
  pub duration : n.duration_days ≡ l.duration_days

abbrev RanOut : ℕ → License → Type 0
RanOut now l = (l.status ≡ expired) ⊎ ((e : ℕ) × (l.expire_at ≡ some e) × (e < now))

-- A licence that ran out becomes active, whatever its status was, and is paid from now on; any other
-- one keeps its status, and is paid from its expiry on, or from now on if it has none.
pub data Extends (now days : ℕ) (l n : License) : Type 0 where
  from_now :
      RanOut now l
      → n.status ≡ active
      → n.expire_at ≡ some (now + days * day)
      → Extends now days l n
  from_expiry :
      (e : ℕ)
      → l.expire_at ≡ some e
      → now ≤ e
      → n.status ≡ l.status
      → n.expire_at ≡ some (e + days * day)
      → Extends now days l n
  without_expiry :
      l.expire_at ≡ none
      → n.status ≡ l.status
      → n.expire_at ≡ some (now + days * day)
      → Extends now days l n

abbrev AtLeast : ℤ → ℤ → ℤ → Type 0
AtLeast least old new = (new ≡ old) ⊎ (ltb_ℤ new least ≡ false)

-- Only a licence that is not revoked is renewed or revoked, only an active one suspended, only a
-- suspended one resumed; a perpetual licence is not renewed.
pub data Step (l n : License) : Type 0 where
  renewal :
      (now days : ℕ)
      → license_status_eq l.status revoked ≡ false
      → eqb_ℤ l.duration_days (negsuc 0) ≡ false
      → Extends now days l n
      → n.duration_days ≡ wrap64 (l.duration_days +ℤ pos days)
      → Same l n × SameTerms l n
      → Step l n
  revocation :
      (reason : String)
      → license_status_eq l.status revoked ≡ false
      → n.status ≡ revoked
      → n.revoked_reason ≡ reason
      → Same l n × SameTerms l n × SameTime l n
      → Step l n
  suspension :
      (reason : String)
      → license_status_eq l.status active ≡ true
      → n.status ≡ suspended
      → n.suspended_reason ≡ reason
      → Same l n × SameTerms l n × SameTime l n
      → Step l n
  resumption :
      license_status_eq l.status suspended ≡ true
      → n.status ≡ active
      → n.suspended_reason ≡ ""
      → Same l n × SameTerms l n × SameTime l n
      → Step l n
  revision :
      AtLeast (pos 1) l.max_devices n.max_devices
      → AtLeast (pos 0) l.unbind_limit n.unbind_limit
      → n.unbind_used ≡ l.unbind_used
      → n.status ≡ l.status
      → Same l n × SameTime l n
      → Step l n
  reset :
      n.unbind_used ≡ pos 0
      → n.status ≡ l.status
      → Same l n × SameTerms l n × SameTime l n
      → Step l n

same :
    {l n : License}
    → n.id ≡ l.id
    → n.tenant_id ≡ l.tenant_id
    → n.app_id ≡ l.app_id
    → n.customer_id ≡ l.customer_id
    → n.license_key ≡ l.license_key
    → n.activated_at ≡ l.activated_at
    → Same l n
same a b c d e f = record { id = a; tenant = b; app = c; customer = d; key = e; activated = f }

is_expired_lem : (s : LicenseStatus) → license_status_eq s expired ≡ true → s ≡ expired
is_expired_lem expired h = refl
is_expired_lem pending h = cc
is_expired_lem active h = cc
is_expired_lem suspended h = cc
is_expired_lem revoked h = cc

renewed-Extends : (now days : ℕ) (l : License) → Extends now days l (renewed now days l)
unfolding renewed
renewed-Extends now days l = go _ refl l.expire_at refl
  where
    At : Bool → Option ℕ → ℕ → Type 0
    At out o from = Extends now days l (record l {
      status = if out then active else l.status;
      expire_at = some (if out then now + days * day else from + days * day);
      duration_days = wrap64 (l.duration_days +ℤ pos days);
    })

    timed : (e : ℕ) (out : Bool) → l.expire_at ≡ some e → ltb e now ≡ out → At out (some e) e
    timed e true at h = from_now (inr (e, at, ground arith)) refl refl
    timed e false at h = from_expiry e at (ground arith) refl refl

    go :
        (b : Bool)
        → license_status_eq l.status expired ≡ b
        → (o : Option ℕ) → l.expire_at ≡ o
        → At (b || past now o) o (elim o [ none ↦ now | some e ↦ e ])
    go true h o at = from_now (inl (is_expired_lem l.status h)) refl refl
    go false h none at = without_expiry at refl refl
    go false h (some e) at = timed e _ at refl

at_least :
    (least old : ℤ) (o : Option ℤ) → too_small least o ≡ false → AtLeast least old (or_kept o old)
at_least least old none h = inl refl
at_least least old (some n) h = inr h

same_terms :
    {l n : License}
    → n.max_devices ≡ l.max_devices
    → n.unbind_limit ≡ l.unbind_limit
    → n.features ≡ l.features
    → SameTerms l n
same_terms a b c = record { devices = a; unbinds = b; features = c }

same_time :
    {l n : License} → n.expire_at ≡ l.expire_at → n.duration_days ≡ l.duration_days → SameTime l n
same_time a b = record { expiry = a; duration = b }

-- What the handlers write are such steps.
pub renews :
    (now days : ℕ) (l : License)
    → license_status_eq l.status revoked ≡ false
    → eqb_ℤ l.duration_days (negsuc 0) ≡ false
    → Step l (renewed now days l)
unfolding renewed
renews now days l h k =
    renewal now days h k (renewed-Extends now days l) refl
      (same refl refl refl refl refl refl, same_terms refl refl refl)

pub revokes :
    (reason : String) (l : License)
    → license_status_eq l.status revoked ≡ false
    → Step l (revoked_as reason l)
revokes reason l h =
    revocation reason h refl refl
      (same refl refl refl refl refl refl, same_terms refl refl refl, same_time refl refl)

pub suspends :
    (reason : String) (l : License)
    → license_status_eq l.status active ≡ true
    → Step l (suspended_as reason l)
suspends reason l h =
    suspension reason h refl refl
      (same refl refl refl refl refl refl, same_terms refl refl refl, same_time refl refl)

pub resumes : (l : License) → license_status_eq l.status suspended ≡ true → Step l (resumed l)
resumes l h =
    resumption h refl refl
      (same refl refl refl refl refl refl, same_terms refl refl refl, same_time refl refl)

pub updates :
    (req : UpdateLicenseRequest) (l : License)
    → too_small (pos 1) req.max_devices ≡ false
    → too_small (pos 0) req.unbind_limit ≡ false
    → Step l (updated req l)
updates req l h k =
    revision (at_least (pos 1) l.max_devices req.max_devices h)
      (at_least (pos 0) l.unbind_limit req.unbind_limit k) refl refl
      (same refl refl refl refl refl refl, same_time refl refl)

pub resets : (l : License) → Step l (record l { unbind_used = pos 0 })
resets l =
    reset refl refl
      (same refl refl refl refl refl refl, same_terms refl refl refl, same_time refl refl)

pub Step-id : (l n : License) → Step l n → n.id ≡ l.id
Step-id l n (renewal now days h k e d s) = s.0.id
Step-id l n (revocation reason h st r s) = s.0.id
Step-id l n (suspension reason h st r s) = s.0.id
Step-id l n (resumption h st r s) = s.0.id
Step-id l n (revision a b u st s) = s.0.id
Step-id l n (reset u st s) = s.0.id
