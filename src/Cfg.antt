-- ===== src/Cfg.antt =====
-- cfg/config.go: the configuration, its defaults, the node's id and the reading of the file. TOML, the
-- machine's id, FNV and the functions on paths are outside the repository: what they return is an
-- argument. Flags are arguments too.
pub mod Settled
use Prim.Native.String.{◌++◌ as ◌^^◌}
use harmonylite.Prelude.{
  ◌≐◌, ℕ, String, Bool, true, false, Option, some, List, [], ◌==◌, if◌then◌else◌, Err, Result,
  Outcome, ok, err, string_eq, nat_eq,
}

-- An `int64` or an `int` is its two's complement of 64 bits.
pub record ReplicationLogConfiguration : Type 0 where
  pub shards : ℕ
  pub max_entries : ℕ
  pub replicas : ℕ
  pub compress : Bool
  pub update_existing : Bool

pub record S3Configuration : Type 0 where
  pub dir_path : String
  pub endpoint : String
  pub access_key : String
  pub secret_key : String
  pub session_token : String
  pub bucket : String
  pub use_ssl : Bool

pub record ObjectStoreConfiguration : Type 0 where
  pub replicas : ℕ
  pub bucket_name : String

-- `webdav` and `sftp` are the `Url` of their configurations.
pub record SnapshotConfiguration : Type 0 where
  pub enable : Bool
  pub interval : ℕ
  pub leader_ttl : ℕ
  pub store_type : String
  pub nats : ObjectStoreConfiguration
  pub s3 : S3Configuration
  pub webdav : String
  pub sftp : String

pub record NatsConfiguration : Type 0 where
  pub urls : List String
  pub subject_prefix : String
  pub stream_prefix : String
  pub server_config_file : String
  pub seed_file : String
  pub creds_user : String
  pub creds_password : String
  pub ca_file : String
  pub cert_file : String
  pub key_file : String
  pub bind_address : String
  pub connect_retries : ℕ
  pub reconnect_wait_seconds : ℕ

pub record LoggingConfiguration : Type 0 where
  pub verbose : Bool
  pub format : String

pub record PrometheusConfiguration : Type 0 where
  pub bind : String
  pub enable : Bool
  pub namespace : String
  pub subsystem : String

pub record HealthCheckConfiguration : Type 0 where
  pub enable : Bool
  pub bind : String
  pub path : String
  pub detailed : Bool

pub record Configuration : Type 0 where
  pub seq_map_path : String
  pub db_path : String
  pub node_id : ℕ
  pub publish : Bool
  pub replicate : Bool
  pub scan_max_changes : ℕ
  pub cleanup_interval : ℕ
  pub sleep_timeout : ℕ
  pub polling_interval : ℕ
  pub snapshot : SnapshotConfiguration
  pub replication_log : ReplicationLogConfiguration
  pub nats : NatsConfiguration
  pub logging : LoggingConfiguration
  pub prometheus : PrometheusConfiguration
  -- A nil pointer is `none`.
  pub health_check : Option HealthCheckConfiguration

abbrev default_snapshot : SnapshotConfiguration
default_snapshot = record {
  enable = true;
  interval = 0;
  leader_ttl = 0;
  store_type = "nats";
  nats = record { replicas = 1; bucket_name = "" };
  s3 = record {
    dir_path = "";
    endpoint = "";
    access_key = "";
    secret_key = "";
    session_token = "";
    bucket = "";
    use_ssl = false;
  };
  webdav = "";
  sftp = "";
}

abbrev default_replication_log : ReplicationLogConfiguration
default_replication_log = record {
  shards = 1;
  max_entries = 1024;
  replicas = 1;
  compress = true;
  update_existing = false;
}

abbrev default_nats : NatsConfiguration
default_nats = record {
  urls = [];
  subject_prefix = "harmonylite-change-log";
  stream_prefix = "harmonylite-changes";
  server_config_file = "";
  seed_file = "";
  creds_user = "";
  creds_password = "";
  ca_file = "";
  cert_file = "";
  key_file = "";
  bind_address = ":-1";
  connect_retries = 5;
  reconnect_wait_seconds = 2;
}

abbrev default_health_check : HealthCheckConfiguration
default_health_check = record {
  enable = false;
  bind = "0.0.0.0:8090";
  path = "/health";
  detailed = true;
}

-- The variable `Config`, for `os.TempDir()` and `path.Join`.
unfoldable pub default_config : (String → String → String) → String → Configuration
default_config join temp_dir = record {
  seq_map_path = join temp_dir "seq-map.cbor";
  db_path = join temp_dir "harmonylite.db";
  node_id = 0;
  publish = true;
  replicate = true;
  scan_max_changes = 512;
  cleanup_interval = 5000;
  sleep_timeout = 0;
  polling_interval = 0;
  snapshot = default_snapshot;
  replication_log = default_replication_log;
  nats = default_nats;
  logging = record { verbose = false; format = "console" };
  prometheus = record { bind = ":3010"; enable = false; namespace = "harmonylite"; subsystem = "" };
  health_check = some default_health_check;
}

-- `init`: an id of 0 is replaced by the hash of the machine's id, or of a random one. Writing to the
-- hash does not fail.
unfoldable pub init : (String → ℕ) → Result String → String → Configuration → Configuration
init sum64 machine_id random c =
    if c.node_id == 0
    then record c { node_id = sum64 (elim machine_id [ err _ ↦ random | ok id ↦ id ]) }
    else c

-- What decoding a file into the configuration comes to; where it fails, a part may be there.
pub data Decoded : Type 0 where
  missing : Decoded
  failed : Err → Configuration → Decoded
  decoded : Configuration → Decoded

-- The package's two variables.
pub record Settings : Type 0 where
  pub config : Configuration
  pub data_root_dir : String

module _ (join : String → String → String) (node_id_flag : ℕ) where
  pub with_root : Configuration → Result String → Outcome × Settings
  with_root c (err e) = (err e, record { config = c; data_root_dir = "" })
  with_root c (ok root) =
      let path = if c.seq_map_path ≐ "" then join root "seq-map.cbor" else c.seq_map_path in
      (ok tt, record { config = record c { seq_map_path = path }; data_root_dir = root })

  -- `absolute` is `filepath.Abs(path.Dir(p))`, which gives "" where it fails.
  pub on_decoded : (String → Result String) → Settings → Decoded → Outcome × Settings
  unfolding with_root
  on_decoded absolute s missing = (ok tt, s)
  on_decoded absolute s (failed e c) = (err e, record s { config = c })
  on_decoded absolute s (decoded c) =
      let id = if node_id_flag == 0 then c.node_id else node_id_flag in
      with_root (record c { node_id = id }) (absolute c.db_path)

  -- `Load`
  unfoldable pub load :
      (Configuration → Decoded) → (String → Result String) → Settings → Outcome × Settings
  unfolding on_decoded
  load decode absolute s = on_decoded absolute s (decode s.config)

unfoldable pub snapshot_storage_type : Configuration → String
snapshot_storage_type c = c.snapshot.store_type

-- `show` is the decimal notation.
unfoldable pub node_name : (ℕ → String) → Configuration → String
node_name show c = "harmonylite-node" ^^ ("-" ^^ show c.node_id)
