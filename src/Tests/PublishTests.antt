-- ===== src/Tests/PublishTests.antt =====
-- The theorems on publishing, leases and the schema registry at concrete inputs.
use harmonylite.Prelude.{
  All, Dict, insert, ℕ, suc, ◌*◌, ◌%◌, ◌≤◌, String, ◌≡◌, refl, ◌≢◌, true, false, none, some, List,
  [], ◌∷◌, arith, ◌==◌, if◌then◌else◌, log_not_ready, ok, string_eq, nat_eq,
}
use harmonylite.Tests.Codecs.{toy_cbor, toy_lease_codec}
use harmonylite.Tests.Stores.{toy_bucket, OneKey}
use harmonylite.Logstream.Replicator.{
  LogConfig, NatsConstants, OpenIo, PublishIo, not_found, open_shards, make_shard_stream_config,
  replicas_for, publish, restore_snapshot, StreamConfig, failed,
}
use harmonylite.Logstream.Replicator.Routing.{publish_routes}
use harmonylite.Logstream.Replicator.Restore.{restore_iff_gap}
use harmonylite.Logstream.Replicator.Streams.{replicas-bounds}
use harmonylite.Logstream.MetaStore.{LockInfo, acquire_lease}
use harmonylite.Logstream.MetaStore.Lease.{Holds, lease_excludes}
use harmonylite.Logstream.SnapshotLeader.{
  SnapshotLeader, new_snapshot_leader, snapshot_leader_key, second,
}
use harmonylite.Logstream.SnapshotLeader.Single.{run, single_leader, Attempt}
use harmonylite.Logstream.SchemaRegistry.{NodeSchemaState}
use harmonylite.Logstream.Validation.{check_stream_gap}
use harmonylite.Logstream.ReplicationState.{ReplicationState}

abbrev show : ℕ → String
show n = if n == 1 then "1" else if n == 2 then "2" else "3"

abbrev nats : NatsConstants
nats = record { discard_old = 0; file_storage = 0; limits_policy = 0 }

abbrev config : LogConfig
config = record {
  shards = 3;
  compress = false;
  update_existing = false;
  max_entries = 1024;
  replicas = 0;
  snapshot_enable = true;
  stream_prefix = "changes";
  subject_prefix = "change";
}

abbrev wanted : ℕ → StreamConfig
wanted shard = make_shard_stream_config show nats config shard 3

abbrev open_io : OpenIo
open_io = record {
  jet_stream = λ shard. ok shard;
  stream_info = λ shard attempt. if attempt == 0 then failed log_not_ready else not_found;
  add_stream = λ shard attempt. ok (wanted shard);
  update_stream = λ shard. ok (wanted shard);
}

abbrev streams : Dict ℕ ℕ
streams = (1, 1) ∷ (2, 2) ∷ (3, 3) ∷ []

abbrev state : ReplicationState
state = record { seq = ("changes-1", 41) ∷ []; fl = some [] }

abbrev publish_io : PublishIo
publish_io = record {
  payload_compress = λ p. ok p;
  ack = ok ("changes-2", 42);
  save = record { seek = ok tt; encode = ok tt; torn = [] };
}

opened : open_shards show nats config open_io 3 0 [] ≡ ok streams
unfolding open_shards insert
opened = refl

publish_routes_example :
    (suc (7 % 3) ≤ 3)
    × ((publish toy_cbor config publish_io streams state 7 (5 ∷ [])).sent
        ≡ some (suc (7 % 3), 5 ∷ []))
publish_routes_example =
    publish_routes show nats config open_io toy_cbor publish_io streams state 7 (5 ∷ []) (5 ∷ [])
      opened (omega arith) refl

restore_iff_gap_example :
    restore_snapshot (some (ok tt)) state (("changes-1", ok 40) ∷ ("changes-2", ok 7) ∷ []) ≡ (
      if check_stream_gap state (("changes-1", ok 40) ∷ ("changes-2", ok 7) ∷ [])
      then (ok tt, true)
      else (ok tt, false))
restore_iff_gap_example =
    restore_iff_gap (ok tt) state (("changes-1", ok 40) ∷ ("changes-2", ok 7) ∷ [])
      ((40, refl), ((7, refl), tt))

replicas-bounds_example : (1 ≤ replicas_for 0 11) × (replicas_for 0 11 ≤ 5)
replicas-bounds_example = replicas-bounds 0 11 (omega arith) (omega arith)

abbrev holder : LockInfo
holder = record { node_id = 1; timestamp = 1000 }

abbrev held : OneKey
held = (some (1 ∷ 1000 ∷ [], 4), 4)

-- Node 2 read the bucket before node 1 took the lease.
lease_excludes_example :
    ((acquire_lease toy_bucket toy_lease_codec "snapshot" 2 10000 2000 (none, 3) held).0 ≢ ok true)
    × Holds toy_bucket toy_lease_codec "snapshot" holder 4
        (acquire_lease toy_bucket toy_lease_codec "snapshot" 2 10000 2000 (none, 3) held).1
lease_excludes_example =
    lease_excludes toy_bucket toy_lease_codec "snapshot" holder 4 2 10000 2000 (none, 3) held
      (1 ∷ 1000 ∷ [], refl, refl) (λ w e. cc) (omega arith) (omega arith)

abbrev rival : ℕ → SnapshotLeader
rival n = new_snapshot_leader n true (30 * second)

abbrev attempts : List (Attempt toy_bucket toy_lease_codec)
attempts = ((rival 2, 2000), held) ∷ ((rival 3, 30999), (none, 3)) ∷ []

single_leader_example :
    All
      (λ (l : SnapshotLeader). l.is_leader ≡ false)
      (run toy_bucket toy_lease_codec attempts held).0
    × Holds toy_bucket toy_lease_codec snapshot_leader_key holder 4
        (run toy_bucket toy_lease_codec attempts held).1
unfolding new_snapshot_leader
single_leader_example =
    single_leader toy_bucket toy_lease_codec holder 4 attempts held (1 ∷ 1000 ∷ [], refl, refl)
      (
        (omega arith, omega arith, (λ w e. ground arith), refl),
        ((omega arith, omega arith, (λ w e. cc), refl), tt),
      )

abbrev node_state : ℕ → String → ℕ × NodeSchemaState
node_state n h = (
  n,
  record {
    node_id = n;
    schema_hash = h;
    previous_hash = "";
    harmony_lite_version = "";
    updated_at = 0;
  },
)

abbrev cluster : Dict ℕ NodeSchemaState
cluster = node_state 1 "a" ∷ node_state 2 "b" ∷ []
