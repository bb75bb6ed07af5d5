-- ===== src/Logstream/Replicator.antt =====
-- The publishing half of logstream/replicator.go, and the streams that it publishes to. NATS, zstd
-- and the formatting of numbers are outside the repository: what their calls return is an argument.
-- The snapshot that a publication starts runs in its own goroutine; here it is an output.
pub mod Saving
pub mod Setup
pub mod Routing
pub mod Streams
pub mod Restore
use Prim.Native.String.{◌++◌ as ◌^^◌}
use harmonylite.Prelude.{
  Dict, ◌≐◌, lookup, insert, ℕ, zero, suc, ◌+◌, ◌-◌, ◌/◌, ◌%◌, ◌^◌, String, Bool, true, false, not,
  ◌&&◌, ◌||◌, Option, none, some, List, [], ◌∷◌, ltb, leb, ◌==◌, if◌then◌else◌, Err, Result,
  Outcome, not_initialized, ok, err, string_eq, nat_eq, ◌>>=◌, ◌>>◌,
}
use harmonylite.Prelude.Results.{exited}
use harmonylite.Logstream.ReplicationState.{ReplicationState, save, SaveIo, Cbor, get}

-- The fields of the configuration that the streams depend on.
pub record LogConfig : Type 0 where
  pub shards : ℕ
  pub compress : Bool
  pub update_existing : Bool
  pub max_entries : ℕ
  pub replicas : ℕ
  pub snapshot_enable : Bool
  pub stream_prefix : String
  pub subject_prefix : String

abbrev pub snapshot_shard_id : ℕ
snapshot_shard_id = 1

-- `show` is the decimal notation of a number.
unfoldable pub stream_name : (ℕ → String) → LogConfig → ℕ → String
stream_name show c shard = c.stream_prefix ^^ (if c.compress then "-c" else "") ^^ "-" ^^ show shard

unfoldable pub subject_name : (ℕ → String) → LogConfig → ℕ → String
subject_name show c shard = c.subject_prefix ^^ "-" ^^ show shard

-- The fields of `nats.StreamConfig` that the code sets. An `int` is its two's complement of 64 bits,
-- and `Discard`, `Storage` and `Retention` are constants of NATS.
pub record StreamConfig : Type 0 where
  pub name : String
  pub subjects : List String
  pub discard : ℕ
  pub max_msgs : ℕ
  pub storage : ℕ
  pub retention : ℕ
  pub allow_direct : ℕ
  pub max_consumers : ℕ
  pub max_msgs_per_subject : ℕ
  pub duplicates : ℕ
  pub deny_delete : ℕ
  pub replicas : ℕ

-- The constants `DiscardOld`, `FileStorage` and `LimitsPolicy`.
pub record NatsConstants : Type 0 where
  pub discard_old : ℕ
  pub file_storage : ℕ
  pub limits_policy : ℕ

abbrev pub minus_one : ℕ
minus_one = 2 ^ 64 - 1

-- The number of replicas: `replicas < 1` and `replicas > 5` compare signed integers.
unfoldable pub replicas_for : ℕ → ℕ → ℕ
replicas_for replicas total_shards =
    let r =
      if replicas == 0 || leb (2 ^ 63) replicas
      then (total_shards / 2 + 1) % 2 ^ 64
      else replicas in
    if ltb 5 r && ltb r (2 ^ 63) then 5 else r

-- `true` is 1 in the flags.
unfoldable pub make_shard_stream_config :
    (ℕ → String) → NatsConstants → LogConfig → ℕ → ℕ → StreamConfig
make_shard_stream_config show nats c shard total_shards = record {
  name = stream_name show c shard;
  subjects = subject_name show c shard ∷ [];
  discard = nats.discard_old;
  max_msgs = c.max_entries;
  storage = nats.file_storage;
  retention = nats.limits_policy;
  allow_direct = 1;
  max_consumers = minus_one;
  max_msgs_per_subject = minus_one;
  duplicates = 0;
  deny_delete = 1;
  replicas = replicas_for c.replicas total_shards;
}

abbrev pub same_subject : List String → List String → Bool
same_subject (s ∷ []) (t ∷ []) = s ≐ t
same_subject _ _ = false

unfoldable pub eq_shard_stream_config : StreamConfig → StreamConfig → Bool
eq_shard_stream_config a b =
    a.name ≐ b.name
    && same_subject a.subjects b.subjects
    && a.discard == b.discard
    && a.max_msgs == b.max_msgs
    && a.storage == b.storage
    && a.retention == b.retention
    && a.allow_direct == b.allow_direct
    && a.max_consumers == b.max_consumers
    && a.max_msgs_per_subject == b.max_msgs_per_subject
    && a.duplicates == b.duplicates
    && a.deny_delete == b.deny_delete
    && a.replicas == b.replicas

-- What `StreamInfo` returns; `not_found` is `ErrStreamNotFound`.
pub data StreamInfo : Type 0 where
  found : StreamConfig → StreamInfo
  not_found : StreamInfo
  failed : Err → StreamInfo

-- The answers of NATS while the streams of the shards are opened, by shard and attempt.
pub record OpenIo : Type 0 where
  pub jet_stream : ℕ → Result ℕ
  pub stream_info : ℕ → ℕ → StreamInfo
  pub add_stream : ℕ → ℕ → Result StreamConfig
  pub update_stream : ℕ → Result StreamConfig

abbrev pub max_retries : ℕ
max_retries = 5

try_stream : OpenIo → ℕ → ℕ → Result StreamConfig
try_stream io shard attempt = elim (io.stream_info shard attempt) [
  | found info ↦ ok info
  | not_found ↦ io.add_stream shard attempt
  | failed e ↦ err e
]

-- The retry loop: `left` attempts are left, and `last` is the error so far.
pub retry_stream : OpenIo → ℕ → ℕ → ℕ → Result StreamConfig → Result StreamConfig
unfolding try_stream
retry_stream io shard zero attempt last = last
retry_stream io shard (suc left) attempt last = elim (try_stream io shard attempt) [
  | ok info ↦ ok info
  | err e ↦ retry_stream io shard left (suc attempt) (err e)
]

pub update : OpenIo → LogConfig → ℕ → StreamConfig → StreamConfig → Result StreamConfig
update io c shard info wanted =
    if c.update_existing && not (eq_shard_stream_config info wanted)
    then io.update_stream shard
    else ok info

-- The loop of `NewReplicator` over the shards: `left` shards are left after the first `i`.
unfoldable pub open_shards :
    (ℕ → String) → NatsConstants → LogConfig → OpenIo → ℕ → ℕ → Dict ℕ ℕ → Result (Dict ℕ ℕ)
unfolding retry_stream update
open_shards show nats c io zero i streams = ok streams
open_shards show nats c io (suc left) i streams = do
  js ← io.jet_stream (suc i)
  info ← retry_stream io (suc i) max_retries 0 (err not_initialized)
  info' ← update io c (suc i) info (make_shard_stream_config show nats c (suc i) c.shards)
  open_shards show nats c io left (suc i) (insert (suc i) js streams)

-- What zstd, NATS and the file of the sequence map return to one publication.
pub record PublishIo : Type 0 where
  pub payload_compress : List ℕ → Result (List ℕ)
  pub ack : Result (String × ℕ)
  pub save : SaveIo

-- `sent` is the shard that the payload went to, and `snapshot` tells whether a snapshot was started.
pub record Published : Type 0 where
  pub outcome : Outcome
  pub sent : Option (ℕ × List ℕ)
  pub rep_state : ReplicationState
  pub snapshot : Bool

abbrev pub packed : LogConfig → PublishIo → List ℕ → Result (List ℕ)
packed c io payload = if c.compress then io.payload_compress payload else ok payload

-- `snapshotEntries != 0 && seq%snapshotEntries == 0 && shardID == SnapshotShardID`
abbrev pub is_snapshot_due : LogConfig → ℕ → ℕ → Bool
is_snapshot_due c shard seq =
    let entries = c.max_entries / c.shards in
    not (entries == 0) && seq % entries == 0 && shard == snapshot_shard_id

pub on_ack : Cbor → LogConfig → PublishIo → ReplicationState → ℕ → List ℕ → String × ℕ → Published
on_ack cbor c io rep shard bytes (stream, sequence) =
    if c.snapshot_enable
    then (let (r, rep') = save io.save cbor rep stream sequence in
        elim r [
          | err e ↦ record {
            outcome = err e;
            sent = some (shard, bytes);
            rep_state = rep';
            snapshot = false;
          }
          | ok seq ↦ record {
            outcome = ok tt;
            sent = some (shard, bytes);
            rep_state = rep';
            snapshot = is_snapshot_due c shard seq;
          }
        ])
    else record { outcome = ok tt; sent = some (shard, bytes); rep_state = rep; snapshot = false }

pub send : Cbor → LogConfig → PublishIo → ReplicationState → ℕ → List ℕ → Published
unfolding on_ack
send cbor c io rep shard bytes = elim io.ack [
  | err e ↦ record {
    outcome = err e;
    sent = some (shard, bytes);
    rep_state = rep;
    snapshot = false;
  }
  | ok ack ↦ on_ack cbor c io rep shard bytes ack
]

pub failing : Err → ReplicationState → Published
failing e rep = record { outcome = err e; sent = none; rep_state = rep; snapshot = false }

-- `Publish`. The division by no shards, and a shard without a stream, panic.
unfoldable pub publish :
    Cbor → LogConfig → PublishIo → Dict ℕ ℕ → ReplicationState → ℕ → List ℕ → Published
unfolding send failing
publish cbor c io streams rep hash payload =
    let shard = suc (hash % c.shards) in
    if c.shards == 0 then failing exited rep else elim (lookup shard streams) [
      | none ↦ failing exited rep
      | some js ↦ elim (packed c io payload) [
        | err e ↦ failing e rep
        | ok bytes ↦ send cbor c io rep shard bytes
      ]
    ]

-- `RestoreSnapshot` over the streams in the order of the range, each with what `StreamInfo` returns
-- of its first sequence. The result tells whether the snapshot was restored.
unfoldable pub restore_snapshot :
    Option Outcome → ReplicationState → List (String × Result ℕ) → Outcome × Bool
restore_snapshot none rep streams = (ok tt, false)
restore_snapshot (some restore) rep [] = (ok tt, false)
restore_snapshot (some restore) rep ((stream, err e) ∷ rest) = (err e, false)
restore_snapshot (some restore) rep ((stream, ok first_seq) ∷ rest) =
    if ltb (get rep stream) first_seq
    then (restore, true)
    else restore_snapshot (some restore) rep rest
