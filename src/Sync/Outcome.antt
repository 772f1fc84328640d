-- ===== src/Sync/Outcome.antt =====
-- What a push of internal/service/data_sync.go can come to, for every kind of data.
use mathlib.Core.Path.{subst}
use license_server_ai.Base.{
  inl, inr, ◌≡◌, refl, true, false, Option, none, some, [], ◌∷◌, ◌++◌, find?,
}
use license_server_ai.Base.Int.{pos, ◌+ℤ◌, wrap64}
use license_server_ai.Model.Sync.{Row}
use license_server_ai.Database.Core.{Db, Tables, Result, ok, tick, answer, pure}
use license_server_ai.Database.Ends.{Ends, returns, Ends-mono, Ends-if}
use license_server_ai.Database.Attempt.{attempt-send, attempt-read, attempt-write}
use license_server_ai.Sync.Rows.{
  PushItem, Env, SyncResult, conflict, error, Kind, error_result, success_result, is_delete,
  find_row, create_row, save_row, with_saved, clashes, insert_new,
}
use license_server_ai.Sync.Push.{
  push, push_decoded, push_found, push_absent, push_stored, new_row, next_row, created, saved,
}
use license_server_ai.Sync.Written.{Made, Next, new_row-Made, next_row-Next}
use license_server_ai.Sync.Refusal.{
  standing, put_conflict, Fresh, pending_for, Refused, conflict_result-Refused,
}

module _ {P : Type 0} (k : Kind P) (e : Env) (item : PushItem) (t : Tables) where
  -- The result of a push and the tables that it leaves, from the tables that it found.
  pub data Pushed : SyncResult → Tables → Type 0 where
    -- An error changes nothing.
    failed : (r : SyncResult) → r.push_status ≡ error → Pushed r t
    -- There is nothing to delete.
    nothing :
        (r : Row P)
        → k.decode item ≡ some r
        → find_row k item e.user e.app r (k.rows t.sync) ≡ none
        → is_delete item ≡ true
        → Pushed (success_result item.data_key (pos 0)) t
    -- A row of version 1 is appended, which no other row's keys clash with.
    inserted :
        (r : Row P)
        → k.decode item ≡ some r
        → find_row k item e.user e.app r (k.rows t.sync) ≡ none
        → is_delete item ≡ false
        → find? (clashes k (new_row k e item r)) (k.rows t.sync) ≡ none
        → Made k e item r (new_row k e item r)
        → Pushed
            (success_result (k.answer_key item (new_row k e item r)) (pos 1))
            (record t { sync = k.with_rows (k.rows t.sync ++ new_row k e item r ∷ []) t.sync })
    -- The stored row gets its next version, and nothing else changes.
    replaced :
        (r x : Row P)
        → k.decode item ≡ some r
        → find_row k item e.user e.app r (k.rows t.sync) ≡ some x
        → k.refuses item x.version ≡ false
        → Next k e item r x (next_row k e item r x)
        → Pushed
            (success_result (k.answer_key item x) (wrap64 (x.version +ℤ pos 1)))
            (with_saved k (next_row k e item r x) t)
    -- No row changes, and the conflict is stored with both sides.
    conflicted :
        (r x : Row P) (answered : SyncResult)
        → k.decode item ≡ some r
        → find_row k item e.user e.app r (k.rows t.sync) ≡ some x
        → k.refuses item x.version ≡ true
        → answered.push_status ≡ conflict
        → answered.server_version ≡ x.version
        → answered.conflict_id ≡ (standing e item x.version (k.to_text x) (pending_for e item t)).id
        → Fresh e t (pending_for e item t)
        → Pushed answered (put_conflict e item x.version (k.to_text x) (pending_for e item t) t)

module _ {P : Type 0} (k : Kind P) (e : Env) (item : PushItem) where
  -- A push always answers.
  abbrev pub Answers : Tables → (Result SyncResult × Db) → Type 0
  Answers t r = Ends (Pushed k e item t) (λ _. ⊥) r

  push_absent-Pushed :
      (r : Row P) (d : Db)
      → k.decode item ≡ some r
      → find_row k item e.user e.app r (k.rows d.sync) ≡ none
      → Answers d.tables (push_absent k e item r d)
  unfolding push_absent create_row created answer error_result
  push_absent-Pushed r d decoded absent =
      Ends-if (is_delete item) _ _ d (λ deletes. returns (nothing r decoded absent deletes))
        λ creates.
          attempt-send
            (λ t.
              insert_new k (new_row k e item r) t
                (find? (clashes k (new_row k e item r)) (k.rows t.sync)))
            _ d (λ x. returns (failed _ refl))
            (go creates (find? (clashes k (new_row k e item r)) (k.rows d.sync)) refl)
    where
      go :
          is_delete item ≡ false
          → (o : Option (Row P)) → find? (clashes k (new_row k e item r)) (k.rows d.sync) ≡ o
          → (let (x, d') = answer d (insert_new k (new_row k e item r) d.tables o) in
              Ends
                (Pushed k e item d.tables)
                (λ _. ⊥)
                (pure (created k e item (new_row k e item r) x) d'))
      go creates none free =
          returns (inserted r decoded absent creates free (new_row-Made k e item r))
      go creates (some y) free = returns (failed _ refl)

  push_stored-Pushed :
      (r x : Row P) (d : Db)
      → k.decode item ≡ some r
      → find_row k item e.user e.app r (k.rows d.sync) ≡ some x
      → Answers d.tables (push_stored k e item r x d)
  unfolding push_stored save_row saved error_result
  push_stored-Pushed r x d decoded found =
      Ends-if (k.refuses item x.version) _ _ d
        (λ refused.
          Ends-mono _ (told refused)
            (conflict_result-Refused e item (k.answer_key item x) x.version (k.to_text x) d))
        λ current.
          attempt-write (with_saved k (next_row k e item r x)) _ d (λ y. returns (failed _ refl))
            (returns (replaced r x decoded found current (next_row-Next k e item r x)))
    where
      told :
          k.refuses item x.version ≡ true
          → (a : SyncResult) (u : Tables) → Refused e item x.version (k.to_text x) d.tables a u
          → Pushed k e item d.tables a u
      told refused a u (inl (bad, same)) = subst (Pushed k e item d.tables a) same (failed a bad)
      told refused a u (inr (s, v, c, same, new)) =
          subst (Pushed k e item d.tables a) same (conflicted r x a decoded found refused s v c new)

  push_found-Pushed :
      (r : Row P) (d : Db)
      → k.decode item ≡ some r
      → (o : Option (Row P)) → find_row k item e.user e.app r (k.rows d.sync) ≡ o
      → Answers d.tables (push_found k e item r (ok o) d)
  unfolding push_found
  push_found-Pushed r d decoded none absent = push_absent-Pushed r d decoded absent
  push_found-Pushed r d decoded (some x) found = push_stored-Pushed r x d decoded found

  push_decoded-Pushed :
      (o : Option (Row P)) (d : Db)
      → k.decode item ≡ o
      → Answers d.tables (push_decoded k e item o d)
  unfolding push_decoded push_found error_result
  push_decoded-Pushed none d bad = returns (failed _ refl)
  push_decoded-Pushed (some r) d decoded =
      attempt-read (λ t. find_row k item e.user e.app r (k.rows t.sync)) _ d
        (λ x. returns (failed _ refl)) (push_found-Pushed r (tick d) decoded _ refl)

  -- For every kind of data, a push always answers, whichever statements fail: with an error, and then
  -- nothing has changed; with success at nothing to delete; with a new row of version 1; with the next
  -- version of the stored row, where the named version is not refused; or with a conflict that names
  -- the stored version and is itself stored, where it is refused, and then no row has changed.
  pub push-Pushed : (d : Db) → Answers d.tables (push k e item d)
  unfolding push
  push-Pushed d = push_decoded-Pushed (k.decode item) d refl
