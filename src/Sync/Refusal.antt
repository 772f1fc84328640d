-- ===== src/Sync/Refusal.antt =====
-- What a refused push of internal/service/data_sync.go stores and answers: `recordConflict` and
-- `conflictResult`.
use license_server_ai.Base.{
  ◌⊎◌, inl, inr, ◌≡◌, refl, sym, String, Option, none, some, [], ◌∷◌, ◌++◌,
}
use license_server_ai.Base.Int.{ℤ}
use license_server_ai.Model.Sync.{SyncConflict, unresolved}
use license_server_ai.Database.Core.{
  Db, Tables, Error, Result, ok, err, ◌>>=◌, tick, answer, attempt, pure,
}
use license_server_ai.Database.Ends.{
  Ends, returns, raises, Ends-bind, send-answer, act-then, read-then,
}
use license_server_ai.Database.Attempt.{attempt-Ends}
use license_server_ai.Sync.Table.{find_id}
use license_server_ai.Sync.Rows.{PushItem, Env, SyncResult, conflict, error, error_result}
use license_server_ai.Sync.Conflicts.{
  find_pending, save_conflict_row, insert_conflict, with_conflicts, save_conflict, create_conflict,
  new_conflict, write_conflict, record_conflict, conflict_answer, conflict_result,
}

-- The conflict that stands for an item afterwards, with both sides: the pending one, renewed, or else
-- a new one, of the item's key and pending.
abbrev pub standing : Env → PushItem → ℤ → String → Option SyncConflict → SyncConflict
standing e item v text none = record {
  id = e.new_conflict_id;
  user_id = e.user;
  device_id = e.device;
  app_id = e.app;
  data_type = item.data_type;
  data_key = item.data_key;
  local_version = item.local_version;
  server_version = v;
  local_data = item.raw;
  server_data = text;
  resolution = "";
  resolved_data = "";
  resolved_at = none;
  conflict_status = unresolved;
}
standing e item v text (some c) = record c {
  local_version = item.local_version;
  server_version = v;
  local_data = item.raw;
  server_data = text;
}

abbrev pub put_conflict : Env → PushItem → ℤ → String → Option SyncConflict → Tables → Tables
put_conflict e item v text none t = with_conflicts (λ cs. cs ++ standing e item v text none ∷ []) t
put_conflict e item v text (some c) t =
    with_conflicts (save_conflict_row (standing e item v text (some c))) t

-- The identity of a new conflict is new.
abbrev pub Fresh : Env → Tables → Option SyncConflict → Type 0
Fresh e t none = find_id (λ c. c.id) e.new_conflict_id t.sync.sync_conflicts ≡ none
Fresh e t (some c) = Unit

abbrev pub pending_for : Env → PushItem → Tables → Option SyncConflict
pending_for e item t =
    find_pending e.user e.app e.device item.data_type item.data_key t.sync.sync_conflicts

module _ (e : Env) (item : PushItem) (v : ℤ) (text : String) (E : Tables → Type 0) where
  abbrev WrittenFor : Option SyncConflict → Tables → String → Tables → Type 0
  WrittenFor o before id t =
      (id ≡ (standing e item v text o).id)
      × (t ≡ put_conflict e item v text o before)
      × Fresh e before o

  clash : Tables → Option SyncConflict
  clash t = find_id (λ x. x.id) e.new_conflict_id t.sync.sync_conflicts

  create_conflict-Ends :
      (d : Db)
      → E d.tables
      → Ends
          (WrittenFor none d.tables)
          E
          ((create_conflict (new_conflict e item v text) >>= λ _. pure e.new_conflict_id) d)
  unfolding create_conflict answer ◌>>=◌ clash
  create_conflict-Ends d h =
      send-answer (λ t. insert_conflict (new_conflict e item v text) t (clash t))
        (λ _. pure e.new_conflict_id) d h (go (clash d.tables) refl)
    where
      go :
          (o : Option SyncConflict)
          → clash d.tables ≡ o
          → Ends (WrittenFor none d.tables) E (
              ((λ d. answer d (insert_conflict (new_conflict e item v text) d.tables o)) >>= λ _.
              pure e.new_conflict_id)
                d)
      go none free = returns (refl, refl, free)
      go (some c) taken = raises h

  write_conflict-Ends :
      (o : Option SyncConflict) (d : Db)
      → E d.tables
      → Ends (WrittenFor o d.tables) E (write_conflict e item v text o d)
  unfolding write_conflict save_conflict
  write_conflict-Ends none d h = create_conflict-Ends d h
  write_conflict-Ends (some c) d h = act-then (λ _. tt) _ _ d (returns (refl, refl, tt)) h

  record_conflict-Ends :
      (d : Db)
      → E d.tables
      → Ends
          (λ id t.
            (id ≡ (standing e item v text (pending_for e item d.tables)).id)
            × (t ≡ put_conflict e item v text (pending_for e item d.tables) d.tables)
            × Fresh e d.tables (pending_for e item d.tables))
          E
          (record_conflict e item v text d)
  unfolding record_conflict
  record_conflict-Ends d h =
      read-then (pending_for e item) _ d
        (write_conflict-Ends (pending_for e item d.tables) (tick d) h) h

-- A failure that changes nothing, whatever the error.
Ends-unchanged :
    {A : Type 0} {Q : A → Tables → Type 0} {E : Tables → Type 0} (r : Result A × Db)
    → Ends Q E r
    → Ends Q (λ t. (x : Error) → E t) r
Ends-unchanged r (returns q) = returns q
Ends-unchanged r (raises h) = raises (λ _. h)

-- What an answer to a refused version says, or that nothing changed.
abbrev pub Refused : Env → PushItem → ℤ → String → Tables → SyncResult → Tables → Type 0
Refused e item v text before r after =
    ((r.push_status ≡ error) × (before ≡ after))
    ⊎ ((r.push_status ≡ conflict)
        × (r.server_version ≡ v)
        × (r.conflict_id ≡ (standing e item v text (pending_for e item before)).id)
        × (put_conflict e item v text (pending_for e item before) before ≡ after)
        × Fresh e before (pending_for e item before))

pub conflict_result-Refused :
    (e : Env) (item : PushItem) (key : String) (v : ℤ) (text : String) (d : Db)
    → Ends (Refused e item v text d.tables) (λ _. ⊥) (conflict_result e item key v text d)
unfolding conflict_result conflict_answer error_result
conflict_result-Refused e item key v text d =
    Ends-bind Written (attempt (record_conflict e item v text)) _ d
      (attempt-Ends Written (record_conflict e item v text) d
        (Ends-unchanged _ (record_conflict-Ends e item v text (λ t. t ≡ d.tables) d refl)))
      answered
  where
    Written : Result String → Tables → Type 0
    Written (err x) t = t ≡ d.tables
    Written (ok id) t =
        (id ≡ (standing e item v text (pending_for e item d.tables)).id)
        × (t ≡ put_conflict e item v text (pending_for e item d.tables) d.tables)
        × Fresh e d.tables (pending_for e item d.tables)

    answered :
        (o : Result String) (d' : Db)
        → Written o d'.tables
        → Ends (Refused e item v text d.tables) (λ _. ⊥) (pure (conflict_answer item key v o) d')
    answered (err x) d' w = returns (inl (refl, sym w))
    answered (ok id) d' w = returns (inr (refl, refl, w.0, sym w.1, w.2))
