-- ===== src/License/Trace.antt =====
-- Sequences of calls of internal/handler/license.go by any actors, in which any statements fail.
use license_server_ai.Base.{
  ℕ, ◌≡◌, refl, ◌∙◌, String, true, false, Option, some, List, [], ◌∷◌, arith,
}
use license_server_ai.Model.License.{License, revoked, license_status_eq, is_valid}
use license_server_ai.Database.Core.{Db}
use license_server_ai.Database.Ends.{Ends-tables}
use license_server_ai.License.Store.{Actor, find_license}
use license_server_ai.License.Handlers.{
  renew, revoke, suspend, resume, update, reset_unbind_count, delete, UpdateLicenseRequest,
}
use license_server_ai.License.Life.{
  Step, renewal, revocation, suspension, resumption, revision, reset,
}
use license_server_ai.License.Steps.{Reach, start, next, Later, kept, deleted}
use license_server_ai.License.Keeps.{
  Life, renew-Ends, revoke-Ends, suspend-Ends, resume-Ends, update-Ends, reset_unbind_count-Ends,
  delete-Ends,
}

pub data Call : Type 0 where
  renew_call : Actor → String → ℕ → ℕ → Call
  revoke_call suspend_call : Actor → String → String → Call
  resume_call reset_call delete_call : Actor → String → Call
  update_call : Actor → String → UpdateLicenseRequest → Call

unfoldable pub apply : Call → Db → Db
apply (renew_call a id days now) d = (renew a id days now d).1
apply (revoke_call a id reason) d = (revoke a id reason d).1
apply (suspend_call a id reason) d = (suspend a id reason d).1
apply (resume_call a id) d = (resume a id d).1
apply (reset_call a id) d = (reset_unbind_count a id d).1
apply (delete_call a id) d = (delete a id d).1
apply (update_call a id req) d = (update a id req d).1

unfoldable pub run : List Call → Db → Db
run [] d = d
run (c ∷ cs) d = run cs (apply c d)

module _ (id : String) (l : License) where
  apply-Life : (c : Call) (d : Db) → Life id l d.tables → Life id l (apply c d).tables
  unfolding apply
  apply-Life (renew_call a i days now) d h = Ends-tables (renew-Ends id l a i days now d h)
  apply-Life (revoke_call a i reason) d h = Ends-tables (revoke-Ends id l a i reason d h)
  apply-Life (suspend_call a i reason) d h = Ends-tables (suspend-Ends id l a i reason d h)
  apply-Life (resume_call a i) d h = Ends-tables (resume-Ends id l a i d h)
  apply-Life (reset_call a i) d h = Ends-tables (reset_unbind_count-Ends id l a i d h)
  apply-Life (delete_call a i) d h = Ends-tables (delete-Ends id l a i d h)
  apply-Life (update_call a i req) d h = Ends-tables (update-Ends id l a i req d h)

  run-Life : (cs : List Call) (d : Db) → Life id l d.tables → Life id l (run cs d).tables
  unfolding run
  run-Life [] d h = h
  run-Life (c ∷ cs) d h = run-Life cs (apply c d) (apply-Life c d h)

pub run-Later :
    (id : String) (l : License) (cs : List Call) (d : Db)
    → find_license id d.licenses ≡ some l
    → Later l (find_license id (run cs d).licenses)
run-Later id l cs d found = run-Life id l cs d (rw found (kept start))

Step-revoked :
    (m n : License)
    → Step m n
    → license_status_eq m.status revoked ≡ true
    → (license_status_eq n.status revoked ≡ true) × (n.expire_at ≡ m.expire_at)
Step-revoked m n (renewal now days h k e d s) r = cc
Step-revoked m n (revocation reason h st t s) r = cc
Step-revoked m n (suspension reason h st t s) r = ground arith
Step-revoked m n (resumption h st t s) r = ground arith
Step-revoked m n (revision a b u st s) r = (cc, s.1.expiry)
Step-revoked m n (reset u st s) r = (cc, s.2.expiry)

Reach-revoked :
    (l m : License)
    → Reach l m
    → license_status_eq l.status revoked ≡ true
    → (license_status_eq m.status revoked ≡ true) × (m.expire_at ≡ l.expire_at)
Reach-revoked l m start r = (r, refl)
Reach-revoked l n (next {m} h s) r =
    let before = Reach-revoked l m h r in
    let after = Step-revoked m n s before.0 in (after.0, after.1 ∙ before.1)

-- A revoked licence: stored, revoked, never valid, and with the expiry it had.
abbrev pub Dead : License → Option License → Type 0
Dead l o =
    (m : License) × (o ≡ some m)
    × (license_status_eq m.status revoked ≡ true)
    × (m.expire_at ≡ l.expire_at)
    × ((now : ℕ) → is_valid now m ≡ false)

revoked-not_valid :
    (now : ℕ) (m : License) → license_status_eq m.status revoked ≡ true → is_valid now m ≡ false
unfolding is_valid
revoked-not_valid now m r = ground arith

Later-Dead :
    (l : License) (o : Option License)
    → license_status_eq l.status revoked ≡ true
    → Later l o
    → Dead l o
Later-Dead l o r (kept {m} h) =
    let still = Reach-revoked l m h r in
    (m, refl, still.0, still.1, λ now. revoked-not_valid now m still.0)
Later-Dead l o r (deleted {m} h p) =
    let still = Reach-revoked l m h r in
    let never : ⊥ = (let waiting = p in let gone = still.0 in ground arith) in elim never [ ]

-- Revocation is final: after any sequence of calls by any actors, in which any statements failed, a
-- revoked licence is still stored and revoked, at no time valid, and its expiry is what it was.
pub run-Dead :
    (id : String) (l : License) (cs : List Call) (d : Db)
    → find_license id d.licenses ≡ some l
    → license_status_eq l.status revoked ≡ true
    → Dead l (find_license id (run cs d).licenses)
run-Dead id l cs d found r = Later-Dead l _ r (run-Later id l cs d found)
