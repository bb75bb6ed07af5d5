-- ===== src/Logstream.antt =====
-- logstream/: the replication log, as a node reads and writes it.
pub mod ReplicationState
pub mod ReplicationEvent
pub mod Validation
pub mod Listener
pub mod ListenWithDb
pub mod SchemaRegistry
pub mod MetaStore
pub mod SnapshotLeader
pub mod Replicator
