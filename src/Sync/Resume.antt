-- ===== src/Sync/Resume.antt =====
-- What `GetCheckpoint` finds after `UpdateCheckpoint`, internal/service/data_sync.go.
use license_server_ai.Base.{
  ℕ, ◌≡◌, refl, ap, ◌∙◌, String, Bool, true, false, Option, none, some, List, [], ◌∷◌, ◌++◌, find?,
  if◌then◌else◌, eq_iff, arith, Bool-cases, inl, inr,
}
use license_server_ai.Base.Int.{ℤ}
use license_server_ai.Model.Sync.{SyncCheckpoint}
use license_server_ai.Database.Core.{Db, Tables, tick}
use license_server_ai.Database.Ends.{Ends, read-then}
use license_server_ai.License.Keeps.{write-Ends}
use license_server_ai.Sync.Unique.{find?-append, find?-append_other}
use license_server_ai.Sync.Checkpoints.{
  is_checkpoint, replace_checkpoint, with_checkpoints, new_checkpoint, put_checkpoint,
  update_checkpoint,
}

-- The test for the place of `c`.
abbrev at_place : SyncCheckpoint → SyncCheckpoint → Bool
at_place c = is_checkpoint c.user_id c.device_id c.app_id c.data_type

module _ (u v a k : String) where
  same_place :
      (c : SyncCheckpoint) → is_checkpoint u v a k c ≡ true → is_checkpoint u v a k ≡ at_place c
  same_place c h =
      ground
        (arith, eq_iff c.user_id u, eq_iff c.device_id v, eq_iff c.app_id a, eq_iff c.data_type k)

  same_answer :
      (c x : SyncCheckpoint)
      → at_place c x ≡ true
      → is_checkpoint u v a k x ≡ is_checkpoint u v a k c
  same_answer c x h = ground (
    arith,
    eq_iff x.user_id c.user_id,
    eq_iff x.device_id c.device_id,
    eq_iff x.app_id c.app_id,
    eq_iff x.data_type c.data_type,
  )

  find?-replace_checkpoint :
      (c : SyncCheckpoint) (cs : List SyncCheckpoint)
      → find? (is_checkpoint u v a k) (replace_checkpoint c cs)
        ≡ (if is_checkpoint u v a k c then some c else find? (is_checkpoint u v a k) cs)
  unfolding replace_checkpoint
  find?-replace_checkpoint c [] = refl
  find?-replace_checkpoint c (x ∷ xs) = elim (Bool-cases (at_place c x)) [
    | inl here ↦ rw (here, same_answer c x here) (if_twice (is_checkpoint u v a k c))
    | inr other ↦
        rw (other, find?-replace_checkpoint c xs)
          (elim (Bool-cases (is_checkpoint u v a k c)) [
            | inl mine ↦
                let apart : is_checkpoint u v a k x ≡ false =
                  ap (λ p. p x) (same_place c mine) ∙ other in
                rw (apart, mine) refl
            | inr not_mine ↦ rw not_mine refl
          ])
  ]
    where
      if_twice :
          (b : Bool)
          → (if b then some c else find? (is_checkpoint u v a k) xs)
            ≡ (if b then some c else if b then some x else find? (is_checkpoint u v a k) xs)
      if_twice true = refl
      if_twice false = refl

  find?-append_checkpoint :
      (c : SyncCheckpoint) (cs : List SyncCheckpoint)
      → find? (at_place c) cs ≡ none
      → find? (is_checkpoint u v a k) (cs ++ c ∷ [])
        ≡ (if is_checkpoint u v a k c then some c else find? (is_checkpoint u v a k) cs)
  find?-append_checkpoint c cs absent = elim (Bool-cases (is_checkpoint u v a k c)) [
    | inl mine ↦
        find?-append (λ x. x.user_id) (is_checkpoint u v a k) c cs
          (ap (λ p. find? p cs) (same_place c mine) ∙ absent)
        ∙ rw mine refl
    | inr other ↦ rw other (find?-append_other (λ x. x.user_id) (is_checkpoint u v a k) c cs other)
  ]

module _ (user device app kind : String) (time : ℕ) (version : ℤ) where
  found-place :
      (x : SyncCheckpoint) (cs : List SyncCheckpoint)
      → find? (is_checkpoint user device app kind) cs ≡ some x
      → is_checkpoint user device app kind x ≡ true
  found-place x [] h = ground arith
  found-place x (y ∷ ys) h = ground (arith, found-place x ys)

  moved :
      (x : SyncCheckpoint)
      → is_checkpoint user device app kind x ≡ true
      → record x { last_sync_at = time; last_version = version }
        ≡ new_checkpoint user device app kind time version
  moved x h = ground (
    arith,
    eq_iff x.user_id user,
    eq_iff x.device_id device,
    eq_iff x.app_id app,
    eq_iff x.data_type kind,
  )

  -- Every lookup finds the checkpoint at its place, and elsewhere what it found before.
  abbrev pub Moved : List SyncCheckpoint → Tables → Type 0
  Moved before t =
      (u v a k : String)
      → find? (is_checkpoint u v a k) t.sync.sync_checkpoints ≡ (
          if is_checkpoint u v a k (new_checkpoint user device app kind time version)
          then some (new_checkpoint user device app kind time version)
          else find? (is_checkpoint u v a k) before)

  put_checkpoint-Moved :
      (o : Option SyncCheckpoint) (d : Db)
      → find? (is_checkpoint user device app kind) d.sync.sync_checkpoints ≡ o
      → Ends
          (λ _. Moved d.sync.sync_checkpoints)
          (λ t. t ≡ d.tables)
          (put_checkpoint (new_checkpoint user device app kind time version) o d)
  unfolding put_checkpoint
  put_checkpoint-Moved none d absent =
      write-Ends (Moved d.sync.sync_checkpoints) (λ t. t ≡ d.tables)
        (with_checkpoints (λ cs. cs ++ new_checkpoint user device app kind time version ∷ [])) d
        (λ u v a k.
          find?-append_checkpoint u v a k (new_checkpoint user device app kind time version) _
            absent)
        refl
  put_checkpoint-Moved (some old) d found =
      write-Ends (Moved d.sync.sync_checkpoints) (λ t. t ≡ d.tables)
        (with_checkpoints
          (replace_checkpoint (record old { last_sync_at = time; last_version = version })))
        d
        (λ u v a k.
          ap (λ c. find? (is_checkpoint u v a k) (replace_checkpoint c d.sync.sync_checkpoints))
            (moved old (found-place old _ found))
          ∙ find?-replace_checkpoint u v a k (new_checkpoint user device app kind time version)
              d.sync.sync_checkpoints)
        refl

  -- When `UpdateCheckpoint` succeeds, GetCheckpoint's lookup finds the new time and version for the user,
  -- the device, the application and the kind, and for any others what it found before; when it fails,
  -- no table has changed.
  pub update_checkpoint-Moved :
      (d : Db)
      → Ends
          (λ _. Moved d.sync.sync_checkpoints)
          (λ t. t ≡ d.tables)
          (update_checkpoint user device app kind time version d)
  unfolding update_checkpoint
  update_checkpoint-Moved d =
      read-then (λ t. find? (is_checkpoint user device app kind) t.sync.sync_checkpoints) _ d
        (put_checkpoint-Moved _ (tick d) refl) refl
