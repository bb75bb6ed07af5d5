-- ===== src/Tests.antt =====
-- The theorems at concrete inputs, and the codecs, stores and databases that these need.
pub mod Codecs
pub mod Stores
pub mod LogstreamTests
pub mod PublishTests
pub mod LeaderTests
pub mod RegistryTests
pub mod ChangeLogTests
pub mod FeedTests
pub mod DbTests
pub mod SqliteTests
pub mod NodeTests
pub mod StatusTests
pub mod CfgTests
pub mod StreamTests
pub mod StorageTests
pub mod ReplicateTests
