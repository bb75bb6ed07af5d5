-- ===== src/Lib.antt =====
-- HarmonyLite: replication of SQLite databases over NATS JetStream.
--
-- Triggers of the database write each change to a log table and to a global list. The change log
-- (db/change_log.go) offers the listed changes to a callback of the node (harmonylite.go), which
-- encodes them (logstream/replication_event.go) and publishes them to the stream of a shard that
-- the hash of the row's key chooses (logstream/replicator.go). On every node a listener for each
-- shard (logstream/listen_with_db.go) checks the event's schema hash
-- (logstream/schema_validation.go), applies the event, and saves the sequence in the sequence map
-- (logstream/replication_state.go), from which it goes on after a restart. One node, chosen by a
-- lease, uploads snapshots that restore a node which has fallen behind.
--
-- Prelude: Boolean tests, lists, Go maps as association lists, Go errors (Results), sorting.
-- Db: db/.
--   Db.Event, Db.Event.Hashing: change_log_event.go (Wrap, Unwrap, prepare; Hash,
--     getSortedPKColumns).
--   Db.ChangeLog: change_log.go and table_change_log_script.tmpl (the trigger is `capture`;
--     CleanupChangeLogs). Db.ChangeLog.Publication: publishChangeLog, consumeChangeLogs and
--     markChangePublished. Beside it, Invariant, Delivery and Cleanup are about one operation; Feed
--     is the component's contract, an ordered feed of events, and Feed.Run takes it through any
--     sequence of operations.
--     Db.ChangeLog.Watch: watchChanges and filterChangesTo, with WithReadTx of sqlite.go.
--   Db.Replicate: consumeReplicationEvent, getPrimaryKeyMap and replicateRow of change_log.go; Replay
--     and Replay.Shards take lists of events, and Replay.Hashed takes those of the shards.
--   Db.SchemaManager, Db.SchemaCache: schema_manager.go and schema_cache.go.
--   Db.Sqlite: cleanup.go, and RemoveCDC, BackupTo and listDBTables of sqlite.go, on the rows of
--     sqlite_schema. Db.Sqlite.Install: getTableInfo, InstallCDC, the installation of the triggers
--     and UpdateSchemaState. Db.Sqlite.Restore: RestoreFrom, copyFile, performCheckpoint and
--     OpenStreamDB, on files.
-- Logstream: logstream/.
--   Logstream.ReplicationState: replication_state.go. Logstream.ReplicationEvent:
--     replication_event.go. Logstream.Validation: schema_validation.go.
--   Logstream.Listener: Listen and invokeListener of replicator.go. Logstream.ListenWithDb: the
--     callback of listen_with_db.go, over the same loop.
--   Logstream.Replicator: NewReplicator's streams, Publish and RestoreSnapshot of replicator.go;
--     Logstream.Replicator.Saving: SaveSnapshot and ForceSaveSnapshot. Logstream.Replicator.Setup:
--     NewReplicator as a whole.
--   Logstream.MetaStore, Logstream.SnapshotLeader, Logstream.SchemaRegistry:
--     replicator_meta_store.go, snapshot_leader.go, schema_registry.go.
--     Logstream.MetaStore.Refreshing: ContextRefreshingLease.
-- Pool: pool/connection_pool.go; Pool.Run has the states that borrowing and returning can reach.
-- Snapshot: snapshot/db_snapshot.go and snapshot/nats_storage.go. Snapshot.Storage: the other backends,
--   webdav_storage.go, s3_storage.go and sftp_storage.go, and the choice in nats_snapshot.go.
-- Stream.Discover, Stream.Embedded, Stream.Connect: routes_discover.go, embedded_nats.go and nats.go
--   of stream/. Stream.Buckets: how the buckets of NATS are opened.
-- Cfg: cfg/config.go. Utils.Timeout: utils/timeout.go.
-- Health: health/, db/health.go and logstream/health.go. Node: the callbacks of harmonylite.go;
--   Node.Loop: its main loop. Node.Start: what main does before it.
--   Node.Status: what the commands on schemas print.
-- Tests: the theorems at concrete inputs, with codecs and stores that have the laws assumed.
--
-- State is passed explicitly: an operation takes the state and returns its result with the new
-- state. A Go error is a value of `Err`, and a call that ends the process returns `exited` or
-- `panicked`. Calls of SQLite, NATS, CBOR, zstd and the file system are arguments, with their
-- documented laws as fields of an interface (Cbor, EventCodec, Bucket, LeaseCodec, Registry, StateCodec,
-- ObjectStore, WebDav, S3, Sftp, Ticker, Rows), or as a named hypothesis (MatchesPrefix, for LIKE;
-- IsReliable, for a bucket whose writes succeed).
-- A run of a listener is a list of what the subscription returned; other threads act in it as
-- entries of the list. Methods that hold a mutex throughout are atomic steps.
--
-- No loop of the model takes fuel: those of the code that range over data are structural, and the
-- retry loops count down the constants or the configured numbers of the code (5 attempts for a
-- stream, 7 for a message, the connection's retries). Loops without a bound in the code (the download
-- of a snapshot, the checkpoint, the discovery by DNS, the waiting for streams) run over the list of
-- answers that they get; a theorem on their result is about lists with an answer that ends the loop.
-- Unsigned numbers are natural numbers; where a sum can leave 64 bits, in the number of replicas,
-- its wrap-around is written out. Times in milliseconds are natural numbers, far below 2^63.
--
-- Not modelled: SQL text, whose statements are kept as their parts or translated to the rows they
-- select and change; the options of the NATS client and of the backends' clients; the decoding of the
-- configuration file; metrics and logging, which only pass values on; a break-off
-- between the rows of a statement (rows.Err), in the publication of a change. What others do between the turns
-- of a loop without an end (the watcher, the election, the renewing of a lease) is an argument of the
-- loop or a hypothesis of its theorem.
pub mod Prelude
pub mod Logstream
pub mod Db
pub mod Utils
pub mod Cfg
pub mod Pool
pub mod Snapshot
pub mod Stream
pub mod Health
pub mod Node
pub mod Tests
