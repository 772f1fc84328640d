-- ===== src/Async/Saved.antt =====
-- `finalizeSucceeded` of internal/service/async_runner.go: a task that succeeds has one file for each
-- medium, and those of an earlier attempt are kept.
use mathlib.Core.Path.{subst}
use license_server_ai.Base.{
  ℕ, suc, ◌≤◌, String, ◌≡◌, refl, ap, ◌∙◌, sym, Option, none, some, List, [], ◌∷◌, ◌++◌, length,
  take, drop, arith, ltb, if◌then◌else◌, length-append, Bool-cases, inl, inr,
}
use license_server_ai.Base.Slices.{length-take, length-drop, take_all}
use license_server_ai.Database.Core.{Db, Tables, pure, ◌>>=◌}
use license_server_ai.Database.Statements.{with_update}
use license_server_ai.Database.Ends.{Ends, returns, raises, updates_task-then}
use license_server_ai.Async.Upstream.{Outside, Files, ask}
use license_server_ai.Async.Saving.{
  existing_saved_file_ids, and_then, save_media, succeeded_task, store_succeeded, save_after,
  finalize_with, finalize_succeeded,
}

-- The loop gives an id for each medium.
and_then-length :
    (o : Option String) (rest : Option (List String)) (ids : List String) (n : ℕ)
    → ((xs : List String) → rest ≡ some xs → length xs ≡ n)
    → and_then o rest ≡ some ids
    → length ids ≡ suc n
and_then-length none rest ids n h e = cc
and_then-length (some i) none ids n h e = cc
and_then-length (some i) (some xs) ids n h e =
    ap length (sym (some_inj (i ∷ xs) ids e)) ∙ ap suc (h xs refl)
  where
    some_inj : (a b : List String) → some a ≡ some b → a ≡ b
    some_inj a b e = cc

length-save_media :
    (f : Files) (n : ℕ) (id : String) (i : ℕ) (media ids : List String)
    → save_media f n id i media ≡ some ids
    → length ids ≡ length media
unfolding save_media
length-save_media f n id i [] ids e = ground arith
length-save_media f n id i (m ∷ ms) ids e =
    and_then-length (f.save_result n id i m) (save_media f n id (suc i) ms) ids (length ms)
      (λ xs h. length-save_media f n id (suc i) ms xs h) e

-- The ids are the answers of the file service, at `n`, to saving the media at the position and the
-- following ones, in this order.
pub data SavedFrom (f : Files) (n : ℕ) (id : String) : ℕ → List String → List String → Type 0 where
  none_left : {i : ℕ} → SavedFrom f n id i [] []
  one_saved :
      {i : ℕ} {m x : String} {ms xs : List String}
      → f.save_result n id i m ≡ some x
      → SavedFrom f n id (suc i) ms xs
      → SavedFrom f n id i (m ∷ ms) (x ∷ xs)

save_media-SavedFrom :
    (f : Files) (n : ℕ) (id : String) (i : ℕ) (media ids : List String)
    → save_media f n id i media ≡ some ids
    → SavedFrom f n id i media ids
unfolding save_media
save_media-SavedFrom f n id i [] ids e = subst (SavedFrom f n id i []) (cc) none_left
save_media-SavedFrom f n id i (m ∷ ms) ids e =
    go (f.save_result n id i m) (save_media f n id (suc i) ms) refl
      (save_media-SavedFrom f n id (suc i) ms) e
  where
    go :
        (o : Option String) (rest : Option (List String))
        → f.save_result n id i m ≡ o
        → ((xs : List String) → rest ≡ some xs → SavedFrom f n id (suc i) ms xs)
        → and_then o rest ≡ some ids
        → SavedFrom f n id i (m ∷ ms) ids
    go none rest h k e = cc
    go (some x) none h k e = cc
    go (some x) (some xs) h k e = subst (SavedFrom f n id i (m ∷ ms)) (cc) (one_saved h (k xs refl))

-- The position to go on from is no further than the media, or than the files that are there.
resume_le :
    (existing : List String) (count : ℕ)
    → let (kept, n) = existing_saved_file_ids existing count in (length kept ≡ n) × (n ≤ count)
unfolding existing_saved_file_ids
resume_le existing count =
    let n : ℕ = (if ltb count (length existing) then count else length existing) in
    (length-take n existing (ground arith), ground arith)

abbrev pub min : ℕ → ℕ → ℕ
min a b = if ltb b a then b else a

resume_min :
    (existing : List String) (count : ℕ)
    → (existing_saved_file_ids existing count).1 ≡ min (length existing) count
unfolding existing_saved_file_ids
resume_min existing count = refl

-- The ids that are kept are the first ones.
kept_lem :
    (existing : List String) (count : ℕ)
    → (existing_saved_file_ids existing count).0 ≡ take count existing
unfolding existing_saved_file_ids
kept_lem existing count = elim (Bool-cases (ltb count (length existing))) [
  | inl b ↦ rw b refl
  | inr b ↦ rw b (
      take_all (length existing) existing (ground arith)
      ∙ sym (take_all count existing (ground arith)))
]

module _ (w : Outside) (f : Files) (id : String) (media : List String) (d : Db) where
  -- One id for each medium, the first ones those of the files that were there, and the task succeeds.
  pub record Saved (ids : List String) (t : Tables) : Type 0 where
    pub count : length ids ≡ length media
    pub existing : List String
    pub listed : f.list_for_task d.calls id ≡ some existing
    pub rest : List String
    pub kept : ids ≡ take (length media) existing ++ rest
    pub position : ℕ
    pub goes_on : position ≡ min (length existing) (length media)
    pub rest_saved : (n : ℕ) × SavedFrom f n id position (drop position media) rest
    pub now : ℕ
    pub stored : t ≡ with_update id (succeeded_task now) d.tables

  store_succeeded-Saved :
      (existing : List String) (saved : Option (List String)) (n : ℕ)
      → f.list_for_task d.calls id ≡ some existing
      → save_media f n id
          (existing_saved_file_ids existing (length media)).1
          (drop (existing_saved_file_ids existing (length media)).1 media)
        ≡ saved
      → Ends Saved
          (λ t. t ≡ d.tables)
          (store_succeeded w id (existing_saved_file_ids existing (length media)).0 saved d)
  unfolding store_succeeded ask ◌>>=◌
  store_succeeded-Saved existing none n listed e = raises refl
  store_succeeded-Saved existing (some saved) n listed e =
      let (kept, from) = existing_saved_file_ids existing (length media) in
      let (same, below) = resume_le existing (length media) in
      let rest = length-save_media f n id from (drop from media) saved e in
      updates_task-then id (succeeded_task (w.clock d.calls)) (λ _. pure (kept ++ saved)) d
        (returns (record {
          count =
              ground (arith, length-append kept saved, rest, length-drop from media, same, below);
          existing = existing;
          listed = listed;
          rest = saved;
          kept = ap (λ xs. xs ++ saved) (kept_lem existing (length media));
          position = from;
          goes_on = resume_min existing (length media);
          rest_saved = (n, save_media-SavedFrom f n id from (drop from media) saved e);
          now = w.clock d.calls;
          stored = refl;
        }))
        refl

  save_after-Saved :
      (o : Option (List String))
      → f.list_for_task d.calls id ≡ o
      → Ends Saved (λ t. t ≡ d.tables) (save_after w f id media o d)
  unfolding save_after ask ◌>>=◌
  save_after-Saved none e = raises refl
  save_after-Saved (some existing) e = store_succeeded-Saved existing _ d.calls e refl

-- When `finalizeSucceeded` returns it has one file id for each medium: first those of the files that
-- an earlier attempt saved, as many as there are media at most, then what the file service answers to
-- saving each of the media from that position on, in order; and the task has succeeded. When it fails
-- the task and all the other tables of the model are as before; files that were saved by then stay
-- with the file service, whose table of files is none of them. For any answers of the file service.
pub finalize_succeeded-Saved :
    (w : Outside) (f : Files) (id : String) (media : List String) (d : Db)
    → w.files ≡ some f
    → Ends (Saved w f id media d) (λ t. t ≡ d.tables) (finalize_succeeded w id media d)
unfolding finalize_succeeded finalize_with ask ◌>>=◌
finalize_succeeded-Saved w f id media d h =
    subst (λ o. Ends (Saved w f id media d) (λ t. t ≡ d.tables) (finalize_with w id media o d))
      (sym h) (go media)
  where
    go :
        (media : List String)
        → Ends (Saved w f id media d) (λ t. t ≡ d.tables) (finalize_with w id media (some f) d)
    go [] = raises refl
    go (m ∷ ms) = save_after-Saved w f id (m ∷ ms) d _ refl
