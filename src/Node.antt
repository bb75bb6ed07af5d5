-- ===== src/Node.antt =====
-- harmonylite.go: the callback that publishes a change of the database, and the callback of the
-- listeners. The start, the main loop and the reports are modules below it.
pub mod Pipeline
pub mod Loop
pub mod Start
pub mod Status
use harmonylite.Prelude.{
  Dict, ℕ, Bool, not, Option, none, List, if◌then◌else◌, Result, Outcome, ok, err,
}
use harmonylite.Prelude.Results.{canceled}
use harmonylite.Db.Event.{ChangeLogEvent}
use harmonylite.Db.Event.Hashing.{Hasher, Cache, hash}
use harmonylite.Logstream.ReplicationEvent.{EventCodec, marshal, ReplicationEvent}
use harmonylite.Logstream.Replicator.{LogConfig, PublishIo, publish, Published}
use harmonylite.Logstream.ReplicationState.{ReplicationState, Cbor}

-- `is_canceled` is the state of the context, and `publishes` and `node_id` are configured.
pub record Node : Type 0 where
  pub node_id : ℕ
  pub is_canceled : Bool
  pub publishes : Bool
  pub config : LogConfig
  pub streams : Dict ℕ ℕ
  pub rep_state : ReplicationState
  pub cache : Cache

-- What the callback sent, its result, and the node after it.
abbrev pub Handled : Type 0
Handled = Outcome × (Option (ℕ × List ℕ) × Node)

module _ (cbor : Cbor) (codec : EventCodec) (hasher : Hasher) where
  pub with_hash : PublishIo → Node → List ℕ → Result ℕ × Cache → Handled
  with_hash io n bytes (err e, cache) = (err e, (none, record n { cache = cache }))
  with_hash io n bytes (ok h, cache) =
      let p = publish cbor n.config io n.streams n.rep_state h bytes in
      (p.outcome, (p.sent, record n { rep_state = p.rep_state; cache = cache }))

  pub with_data : PublishIo → ChangeLogEvent → Node → Result (List ℕ) → Handled
  unfolding with_hash
  with_data io event n (err e) = (err e, (none, n))
  with_data io event n (ok bytes) = with_hash io n bytes (hash hasher n.cache event)

  -- The function that `onTableChanged` returns.
  unfoldable pub on_table_changed : PublishIo → ChangeLogEvent → Node → Handled
  unfolding with_data
  on_table_changed io event n =
      if n.is_canceled
      then (err canceled, (none, n))
      else if not n.publishes
      then (ok tt, (none, n))
      else with_data io event n
          (marshal codec (record { from_node_id = n.node_id; payload = event }))

-- The function that `onChangeEventSimple` returns. The event is applied before it is called.
unfoldable pub on_change_event_simple : Node → Outcome
on_change_event_simple n = if n.is_canceled then err canceled else ok tt
