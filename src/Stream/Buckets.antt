-- ===== src/Stream/Buckets.antt =====
-- The opening of the three buckets of NATS, which a node makes where they are not there:
-- logstream/replicator_meta_store.go, logstream/schema_registry.go and snapshot/nats_storage.go.
use Prim.Native.String.{◌++◌ as ◌^^◌}
use harmonylite.Prelude.{◌≐◌, String, if◌then◌else◌, Err, Outcome, ok, err, string_eq, nat_eq, ◌>>◌}

-- What asking for the bucket returns; `bucket_not_found` is `ErrBucketNotFound` or `ErrStreamNotFound`.
pub data Lookup : Type 0 where
  there bucket_not_found : Lookup
  failed : Err → Lookup

pub record BucketIo : Type 0 where
  pub jet_stream : Outcome
  pub look_up : Lookup
  pub create : Outcome

pub on_lookup : Outcome → Lookup → Outcome
on_lookup create there = ok tt
on_lookup create bucket_not_found = create
on_lookup create (failed e) = err e

-- `newReplicatorMetaStore`
unfoldable pub new_replicator_meta_store : BucketIo → Outcome
unfolding on_lookup
new_replicator_meta_store io = do io.jet_stream; on_lookup io.create io.look_up

-- `NewSchemaRegistry`
unfoldable pub new_schema_registry : BucketIo → Outcome
unfolding on_lookup
new_schema_registry io = do io.jet_stream; on_lookup io.create io.look_up

-- `getBlobStore`
unfoldable pub get_blob_store : BucketIo → Outcome
unfolding on_lookup
get_blob_store io = do io.jet_stream; on_lookup io.create io.look_up

-- `blobBucketName`, of the configured name and the prefix of the streams.
unfoldable pub blob_bucket_name : String → String → String
blob_bucket_name name prefix = if name ≐ "" then prefix ^^ "-snapshot-store" else name
