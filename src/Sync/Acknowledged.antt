-- ===== src/Sync/Acknowledged.antt =====
-- Runs of pushes of internal/service/data_sync.go by any devices, as one configuration entry sees them.
use license_server_ai.Base.{
  ℕ, suc, ◌+◌, ◌<◌, ◌^◌, ◌≡◌, refl, ap, ◌∙◌, ◌⊎◌, inl, inr, String, List, [], ◌∷◌, length,
  if◌then◌else◌, arith,
}
use license_server_ai.Base.Int.{ℤ, pos}
use license_server_ai.Database.Core.{Db, Tables, ◌>>=◌, pure}
use license_server_ai.Database.Ends.{Ends, returns, Ends-mono, Ends-bind}
use license_server_ai.Sync.Rows.{PushItem, Env, SyncResult, error_result, unknown_type}
use license_server_ai.Sync.Dispatch.{push_single_item-Ends}
use license_server_ai.Sync.Kinds.{config_kind, push_single_item, push_changes}
use license_server_ai.Sync.Kinds.Decoding.{Json}
use license_server_ai.Sync.Outcome.{push-Pushed}
use license_server_ai.Sync.Versions.{
  IsUnique, version_at, is_ack, Kept, config-Kept, other-Kept, unchanged-Kept,
}

module _ (u a key : String) where
  -- The acknowledged pushes of the entry, each with the version that it named and the one that it got.
  abbrev pub acks : List (Env × PushItem) → List SyncResult → List (ℤ × ℤ)
  acks [] rs = []
  acks (c ∷ cs) [] = []
  acks ((e, item) ∷ cs) (r ∷ rs) =
      let rest = acks cs rs in
      if is_ack u a key e item r then (item.local_version, r.server_version) ∷ rest else rest

  -- Each version is the next one, and is based on the one before unless the entry is new.
  abbrev pub Consecutive : ℕ → List (ℤ × ℤ) → Type 0
  Consecutive n [] = Unit
  Consecutive n ((named, given) ∷ vs) =
      (given ≡ pos (suc n)) × ((n ≡ 0) ⊎ (named ≡ pos n)) × Consecutive (suc n) vs

  abbrev pub Counted : List (Env × PushItem) → ℕ → List SyncResult → Tables → Type 0
  Counted cs n rs t =
      Consecutive n (acks cs rs) × (version_at u a key t ≡ pos (n + length (acks cs rs)))

  module _ (json : Json) where
    push_single_item-Kept :
        (e : Env) (item : PushItem) (d : Db) (n : ℕ)
        → IsUnique d.sync.user_configs
        → version_at u a key d.tables ≡ pos n
        → suc n < 2 ^ 63
        → Ends (Kept u a key e item n) (λ _. ⊥) (push_single_item json e item d)
    unfolding error_result
    push_single_item-Kept e item d n unique at b =
        push_single_item-Ends json e item (Kept u a key e item n) d
          (λ c.
            Ends-mono _ (λ r t. config-Kept u a key e item n d.tables t r c unique at b)
              (push-Pushed config_kind e item d))
          (λ c P k other.
            Ends-mono _
              (λ r t. other-Kept u a key e item k other.keeps_configs n d.tables t r c unique at)
              (push-Pushed k e item d))
          (unchanged-Kept u a key e item n (error_result item unknown_type) d.tables d.tables unique
            at refl (ground arith))

    after-Counted :
        (e : Env) (item : PushItem) (cs : List (Env × PushItem)) (d : Db) (n : ℕ) (r : SyncResult)
        → Kept u a key e item n r d.tables
        → n + suc (length cs) < 2 ^ 63
        → ((m : ℕ)
            → IsUnique d.sync.user_configs
            → version_at u a key d.tables ≡ pos m
            → m + length cs < 2 ^ 63
            → Ends (Counted cs m) (λ _. ⊥) (push_changes json cs d))
        → Ends
            (Counted ((e, item) ∷ cs) n)
            (λ _. ⊥)
            ((push_changes json cs >>= λ rs. pure (r ∷ rs)) d)
    after-Counted e item cs d n r (unique, inl (silent, at)) b next =
        Ends-bind (Counted cs n) _ _ d (next n unique at (omega arith))
          λ rs d' c. returns (rw silent c)
    after-Counted e item cs d n r (unique, inr (told, given, based, at)) b next =
        Ends-bind (Counted cs (suc n)) _ _ d (next (suc n) unique at (omega arith))
          λ rs d' c. returns (rw told ((given, based, c.0), c.1 ∙ ap pos (omega arith)))

    -- Whatever devices push whatever items in whatever order, and whichever statements fail: every push
    -- of a configuration entry that is acknowledged gets the version after the last, so that no two get
    -- the same; each was based on the version before, unless there was no entry; and the stored version
    -- counts them. The rows have distinct ids, and the versions stay below 2^63.
    pub push_changes-Counted :
        (cs : List (Env × PushItem)) (d : Db) (n : ℕ)
        → IsUnique d.sync.user_configs
        → version_at u a key d.tables ≡ pos n
        → n + length cs < 2 ^ 63
        → Ends (Counted cs n) (λ _. ⊥) (push_changes json cs d)
    unfolding push_changes
    push_changes-Counted [] d n unique at b = returns (tt, at ∙ ap pos (omega arith))
    push_changes-Counted ((e, item) ∷ cs) d n unique at b =
        Ends-bind (Kept u a key e item n) _ _ d
          (push_single_item-Kept e item d n unique at (omega arith))
          λ r d1 kept. after-Counted e item cs d1 n r kept b (push_changes-Counted cs d1)
