-- ===== src/License/Steps.antt =====
-- The life of one licence: what it can become by the steps that the calls of
-- internal/handler/license.go take.
use mathlib.Core.Path.{subst}
use license_server_ai.Base.{
  ◌≡◌, refl, sym, ap, ◌∙◌, String, true, Option, none, some, List, str_eq, eq_iff, if◌then◌else◌,
  Bool-cases, inl, inr,
}
use license_server_ai.Model.License.{License, pending, license_status_eq}
use license_server_ai.License.Store.{
  find_license, save_row, find_license-save_row, find_license-delete_row, delete_row,
}
use license_server_ai.License.Life.{Step, Step-id}

pub data Reach : License → License → Type 0 where
  start : {l : License} → Reach l l
  next : {l m n : License} → Reach l m → Step m n → Reach l n

-- What a licence has become: a later state of it, or nothing if it was deleted, which only happens
-- while it is pending.
pub data Later (l : License) : Option License → Type 0 where
  kept : {m : License} → Reach l m → Later l (some m)
  deleted : {m : License} → Reach l m → license_status_eq m.status pending ≡ true → Later l none

Later-Step : (l m n : License) → Later l (some m) → Step m n → Later l (some n)
Later-Step l m n h s = go (some m) h refl
  where
    go : (o : Option License) → Later l o → o ≡ some m → Later l (some n)
    go o (kept {m = m'} r) e = kept (next (subst (Reach l) (cc) r) s)
    go o (deleted r p) e = cc

-- Saving the next state of a stored licence.
pub Later-save_row :
    (id : String) (l m n : License) (ls : List License)
    → Later l (find_license id ls)
    → find_license m.id ls ≡ some m
    → Step m n
    → Later l (find_license id (save_row n ls))
Later-save_row id l m n ls h found s =
    subst (Later l) (sym (find_license-save_row id n ls)) (elim (Bool-cases (str_eq n.id id)) [
      | inl t ↦
          let same : m.id ≡ id = sym (Step-id m n s) ∙ (eq_iff n.id id).0 t in
          subst (λ b. Later l (if b then some n else find_license id ls)) (sym t)
            (Later-Step l m n (subst (Later l) (ap (λ i. find_license i ls) (sym same) ∙ found) h)
              s)
      | inr f ↦ subst (λ b. Later l (if b then some n else find_license id ls)) (sym f) h
    ])

Later-delete :
    (l m : License) → Later l (some m) → license_status_eq m.status pending ≡ true → Later l none
Later-delete l m h p = go (some m) h refl
  where
    go : (o : Option License) → Later l o → o ≡ some m → Later l none
    go o (kept {m = m'} r) e = deleted {m = m} (subst (Reach l) (cc) r) p
    go o (deleted r q) e = cc

-- Deleting a stored licence that is pending.
pub Later-delete_row :
    (id i : String) (l m : License) (ls : List License)
    → Later l (find_license id ls)
    → find_license i ls ≡ some m
    → license_status_eq m.status pending ≡ true
    → Later l (find_license id (delete_row i ls))
Later-delete_row id i l m ls h found p =
    subst (Later l) (sym (find_license-delete_row id i ls)) (elim (Bool-cases (str_eq i id)) [
      | inl t ↦
          let same : i ≡ id = (eq_iff i id).0 t in
          subst (λ b. Later l (if b then none else find_license id ls)) (sym t)
            (Later-delete l m (subst (Later l) (ap (λ j. find_license j ls) (sym same) ∙ found) h)
              p)
      | inr f ↦ subst (λ b. Later l (if b then none else find_license id ls)) (sym f) h
    ])
