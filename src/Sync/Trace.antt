-- ===== src/Sync/Trace.antt =====
-- Sequences of pushes and resolutions of internal/service/data_sync.go, by any devices, in which any
-- statements fail.
use license_server_ai.Base.{String, List, [], ◌∷◌}
use license_server_ai.Database.Core.{Db}
use license_server_ai.Database.Ends.{Ends-tables, Ends-never}
use license_server_ai.Sync.Rows.{PushItem, Env}
use license_server_ai.Sync.Resolve.{Resolution, resolve_conflict}
use license_server_ai.Sync.Kinds.{push_single_item}
use license_server_ai.Sync.Kinds.Decoding.{Json}
use license_server_ai.Sync.Pending.{IsTidy, push_single_item-Tidy, resolve_conflict-Tidy}

pub data Call : Type 0 where
  push_call : Env → PushItem → Call
  resolve_call : Env → Resolution → Call

module _ (json : Json) where
  unfoldable pub apply : Call → Db → Db
  apply (push_call e item) d = (push_single_item json e item d).1
  apply (resolve_call e req) d = (resolve_conflict json e req d).1

  unfoldable pub run : List Call → Db → Db
  run [] d = d
  run (c ∷ cs) d = run cs (apply c d)

  module _ (user app device kind key : String) where
    apply-IsTidy :
        (c : Call) (d : Db)
        → IsTidy user app device kind key d.sync.sync_conflicts
        → IsTidy user app device kind key (apply c d).sync.sync_conflicts
    unfolding apply
    apply-IsTidy (push_call e item) d h =
        Ends-tables (Ends-never (push_single_item-Tidy user app device kind key json e item d h))
    apply-IsTidy (resolve_call e req) d h =
        Ends-tables (resolve_conflict-Tidy user app device kind key json e req d h)

    -- Whatever devices push and resolve, and whichever statements fail: conflicts keep distinct ids, and
    -- at most one conflict is pending for a user, an application, a device, a kind and a key.
    pub run-IsTidy :
        (cs : List Call) (d : Db)
        → IsTidy user app device kind key d.sync.sync_conflicts
        → IsTidy user app device kind key (run cs d).sync.sync_conflicts
    unfolding run
    run-IsTidy [] d h = h
    run-IsTidy (c ∷ cs) d h = run-IsTidy cs (apply c d) (apply-IsTidy c d h)
