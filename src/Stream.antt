-- ===== src/Stream.antt =====
-- stream/: the discovery of peers, the embedded server and the connection to NATS.
pub mod Buckets
pub mod Discover
pub mod Embedded
pub mod Connect
