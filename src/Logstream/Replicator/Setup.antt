-- ===== src/Logstream/Replicator/Setup.antt =====
-- `NewReplicator` of logstream/replicator.go as a whole, and the methods that only pass calls on to
-- the parts of a replicator.
use harmonylite.Prelude.{
  Dict, ℕ, String, ◌≡◌, refl, subst, ◌↔◌, Bool, true, false, ◌&&◌, Option, none, some, [],
  if◌then◌else◌, Result, ◌>>=◌, ◌>>◌, Outcome, registry_missing, ok, err,
}
use harmonylite.Logstream.Replicator.{LogConfig, NatsConstants, OpenIo, open_shards}
use harmonylite.Logstream.ReplicationState.{ReplicationState, InitIo, Cbor, init}
use harmonylite.Logstream.SnapshotLeader.{SnapshotLeader, new_snapshot_leader, get_leader_ttl}
use harmonylite.Logstream.SchemaRegistry.{NodeSchemaState, SchemaConsistencyReport}
use harmonylite.Stream.Buckets.{BucketIo, new_replicator_meta_store, new_schema_registry}

pub record SetupConfig : Type 0 where
  pub node_id : ℕ
  pub log : LogConfig
  pub publish : Bool
  pub snapshot_enable : Bool
  -- In milliseconds.
  pub leader_ttl : ℕ

-- What the connection, the streams, the file of the sequence map and the two buckets return.
pub record SetupIo : Type 0 where
  pub connect : Outcome
  pub streams : OpenIo
  pub sequence_map : InitIo
  pub meta_store : BucketIo
  pub schema_registry : BucketIo

pub record Replicator : Type 0 where
  pub stream_map : Dict ℕ ℕ
  pub rep_state : ReplicationState
  pub snapshot_leader : Option SnapshotLeader
  -- `schemaRegistry` is nil where it could not be made.
  pub has_registry : Bool

abbrev is_made : Outcome → Bool
is_made (err e) = false
is_made (ok u) = true

unfoldable pub leader_for : SetupConfig → Option SnapshotLeader
leader_for c =
    if c.publish && c.snapshot_enable
    then some (new_snapshot_leader c.node_id true (get_leader_ttl c.leader_ttl))
    else none

unfoldable pub new_replicator :
    (ℕ → String) → NatsConstants → Cbor → SetupConfig → SetupIo → Result Replicator
unfolding leader_for
new_replicator show nats cbor c io = do
  io.connect
  streams ← open_shards show nats c.log io.streams c.log.shards 0 []
  rep ← init io.sequence_map cbor
  new_replicator_meta_store io.meta_store
  ok (record {
    stream_map = streams;
    rep_state = rep;
    snapshot_leader = leader_for c;
    has_registry = is_made (new_schema_registry io.schema_registry);
  })

-- `PublishSchemaState`, `GetClusterSchemaState` and `CheckClusterSchemaConsistency`, by what the
-- registry's methods return.
unfoldable pub publish_schema_state : Replicator → Outcome → Outcome
publish_schema_state r published = if r.has_registry then published else err registry_missing

unfoldable pub get_cluster_schema_state :
    Replicator → Result (Dict ℕ NodeSchemaState) → Result (Dict ℕ NodeSchemaState)
get_cluster_schema_state r states = if r.has_registry then states else err registry_missing

unfoldable pub check_cluster_schema_consistency :
    Replicator → Result SchemaConsistencyReport → Result SchemaConsistencyReport
check_cluster_schema_consistency r report = if r.has_registry then report else err registry_missing

is_made_iff : (v : Outcome) → (is_made v ≡ true) ↔ (v ≡ ok tt)
is_made_iff (err e) = ((λ h. cc), (λ h. cc))
is_made_iff (ok u) = ((λ h. refl), (λ h. refl))

elects_iff :
    (c : SetupConfig) (b : Bool)
    → ((if b then some (new_snapshot_leader c.node_id true (get_leader_ttl c.leader_ttl)) else none)
        ≡ none)
      ↔ (b ≡ false)
elects_iff c true = ((λ h. cc), (λ h. cc))
elects_iff c false = ((λ h. refl), (λ h. refl))

-- What a made replicator has: every stream and the sequence map, and no part whose making failed
-- but the registry; a leader that follows at first, exactly on nodes that publish and have snapshots.
pub new_replicator-ok :
    (show : ℕ → String) (nats : NatsConstants) (cbor : Cbor) (c : SetupConfig) (io : SetupIo)
    (r : Replicator)
    → new_replicator show nats cbor c io ≡ ok r
    → (io.connect ≡ ok tt)
      × (open_shards show nats c.log io.streams c.log.shards 0 [] ≡ ok r.stream_map)
      × (init io.sequence_map cbor ≡ ok r.rep_state)
      × (new_replicator_meta_store io.meta_store ≡ ok tt)
      × ((r.has_registry ≡ true) ↔ (new_schema_registry io.schema_registry ≡ ok tt))
      × ((r.snapshot_leader ≡ none) ↔ (c.publish && c.snapshot_enable ≡ false))
unfolding new_replicator leader_for
new_replicator-ok show nats cbor c io r =
    by_parts io.connect (open_shards show nats c.log io.streams c.log.shards 0 [])
      (init io.sequence_map cbor) (new_replicator_meta_store io.meta_store)
      (new_schema_registry io.schema_registry) (c.publish && c.snapshot_enable)
  where
    made : Dict ℕ ℕ → ReplicationState → Outcome → Bool → Replicator
    made streams rep registry elects = record {
      stream_map = streams;
      rep_state = rep;
      snapshot_leader =
          if elects
          then some (new_snapshot_leader c.node_id true (get_leader_ttl c.leader_ttl))
          else none;
      has_registry = is_made registry;
    }

    Parts : Unit {0} → Dict ℕ ℕ → ReplicationState → Unit {0} → Outcome → Bool → Replicator → Type 0
    Parts x s rep y v b q =
        (◌≡◌ {A = Outcome} (ok x) (ok tt))
        × (ok s ≡ ok q.stream_map)
        × (ok rep ≡ ok q.rep_state)
        × (◌≡◌ {A = Outcome} (ok y) (ok tt))
        × ((q.has_registry ≡ true) ↔ (v ≡ ok tt))
        × ((q.snapshot_leader ≡ none) ↔ (b ≡ false))

    ok_inj : (q t : Replicator) → ok q ≡ ok t → q ≡ t
    ok_inj q t e = cc

    by_parts :
        (x : Outcome) (y : Result (Dict ℕ ℕ)) (z : Result ReplicationState) (u v : Outcome)
        (b : Bool)
        → (x >> (y >>= λ streams. z >>= λ rep. u >> ok (made streams rep v b))) ≡ ok r
        → (x ≡ ok tt)
          × (y ≡ ok r.stream_map)
          × (z ≡ ok r.rep_state)
          × (u ≡ ok tt)
          × ((r.has_registry ≡ true) ↔ (v ≡ ok tt))
          × ((r.snapshot_leader ≡ none) ↔ (b ≡ false))
    by_parts (err e) y z u v b h = cc
    by_parts (ok _) (err e) z u v b h = cc
    by_parts (ok _) (ok s) (err e) u v b h = cc
    by_parts (ok _) (ok s) (ok rep) (err e) v b h = cc
    by_parts (ok x) (ok s) (ok rep) (ok y) v b h =
        subst (Parts x s rep y v b) (ok_inj (made s rep v b) r h)
          (refl, refl, refl, refl, is_made_iff v, elects_iff c b)
