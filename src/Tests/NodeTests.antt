-- ===== src/Tests/NodeTests.antt =====
-- The theorems on the pool, snapshots, the health check and the whole node at concrete inputs.
use harmonylite.Prelude.{
  length, All, ℕ, ◌+◌, ◌≡◌, refl, inl, inr, true, false, Option, none, some, List, [], ◌∷◌,
  canceled, ok, err, string_eq, nat_eq,
}
use harmonylite.Tests.Stores.{toy_store, OneObject}
use harmonylite.Pool.{SqliteConnection, SqlitePool, fresh, borrow, new_sqlite_pool}
use harmonylite.Pool.Ownership.{IsOpen, Borrowed}
use harmonylite.Pool.Run.{Reaches, new, lends, opening_fails, new_pool_runs}
use harmonylite.Snapshot.{content, save_snapshot, upload, restore_once}
use harmonylite.Snapshot.Upload.{restore-save, failed_upload_loses}
use harmonylite.Health.{DbAnswers, NatsAnswers}
use harmonylite.Node.{Node}
use harmonylite.Logstream.Replicator.Saving.{Saving, save_snapshot as save_if_leader}
use harmonylite.Node.Loop.{
  Saved, LoopConfig, Event, snapshot_tick, published, sleep_timeout, run, new_loop,
}
use harmonylite.Node.Start.{Options, main, looping}
use harmonylite.Node.Start.Listening.{Listens}
use harmonylite.Node.Start.Ready.{main-IsReady, IsReady}
use harmonylite.Logstream.ReplicationEvent.{ReplicationEvent}
use harmonylite.Logstream.Replicator.{PublishIo, LogConfig, publish}

abbrev used : SqliteConnection
used = record { handle = some 9; disposer = some 5; state = 1 }

-- A pool of two connections that are opened on demand: one is lent out, and for the other the opening
-- fails.
abbrev pool : SqlitePool
pool = record { id = 5; connections = fresh ∷ fresh ∷ [] }

abbrev pool_after : SqlitePool
pool_after = record { id = 5; connections = fresh ∷ [] }

pool_made : new_sqlite_pool (λ n. ok n) 5 2 true ≡ ok pool
unfolding new_sqlite_pool
pool_made = refl

one_lent : Reaches pool pool_after (used ∷ [])
unfolding borrow
one_lent =
    opening_fails (err canceled) canceled pool_after pool_after (used ∷ [])
      (lends (ok 9) used pool pool_after [] new refl) refl

new_pool_runs_example :
    (length pool_after.connections + 1 ≡ 2)
    × All (IsOpen 5) (used ∷ [])
    × Borrowed 2 1 pool_after (borrow (err canceled) pool_after)
new_pool_runs_example =
    new_pool_runs (λ n. ok n) 5 2 true pool pool_after (used ∷ []) (err canceled) pool_made one_lent

abbrev stored : OneObject
stored = (content (1 ∷ []), true)

restore-save_example :
    restore_once
      (toy_store.get_file
          (save_snapshot toy_store false
            (record { mkdir = ok tt; backup = ok tt; read = ok (8 ∷ []) })
            stored).1
        ∷ [])
      (λ bytes. ok tt)
    ≡ some (ok tt, some (8 ∷ []))
restore-save_example =
    restore-save toy_store (8 ∷ []) stored (λ bytes. ok tt) (unfold save_snapshot upload in refl)

failed_upload_loses_example :
    restore_once
      (toy_store.get_file (upload toy_store (err canceled) stored).1 ∷ [])
      (λ bytes. ok tt)
    ≡ some (ok tt, none)
failed_upload_loses_example =
    failed_upload_loses toy_store (err canceled) stored canceled (λ bytes. ok tt) refl
      (unfold upload in refl)

abbrev db_answers : DbAnswers
db_answers = record {
  has_pool = true;
  borrowed = ok tt;
  select_one = ok tt;
  trigger_count = ok 3;
  tracked_tables = 1;
}

abbrev nats_answers : NatsAnswers
nats_answers = record {
  has_client = true;
  is_up = true;
  shards = 1 ∷ [];
  last_seq = ok 4;
  message_time = ok 100;
}

abbrev config : LogConfig
config = record {
  shards = 1;
  compress = false;
  update_existing = false;
  max_entries = 1024;
  replicas = 1;
  snapshot_enable = false;
  stream_prefix = "changes";
  subject_prefix = "change";
}

abbrev node : Node
node = record {
  node_id = 7;
  is_canceled = false;
  publishes = true;
  config = config;
  streams = (1, 1) ∷ [];
  rep_state = record { seq = []; fl = some [] };
  cache = [];
}

abbrev publish_io : PublishIo
publish_io = record {
  payload_compress = λ p. ok p;
  ack = ok ("changes-1", 42);
  save = record { seek = ok tt; encode = ok tt; torn = [] };
}

-- A saving that succeeds at the given time.
abbrev saving : ℕ → Saving
saving t = record {
  leader = some true;
  lease = ok true;
  has_snapshot = true;
  save = ok tt;
  now = t;
}

abbrev loop_config : LoopConfig
loop_config = record {
  snapshot_enable = true;
  publish = true;
  snapshot_interval = 100;
  cleanup_interval = 5;
}

-- The second tick comes too soon after a snapshot of a publication.
abbrev events : List Event
events =
    snapshot_tick 200 (saving 210)
    ∷ published (saving 250)
    ∷ snapshot_tick 300 (saving 310)
    ∷ snapshot_tick 400 (saving 410)
    ∷ sleep_timeout (saving 420)
    ∷ []

abbrev ticks : List Saved → List (ℕ × Option ℕ)
ticks [] = []
ticks (x ∷ xs) = (x.at, x.tick) ∷ ticks xs

four_saves :
    ticks (run loop_config events new_loop).saves
    ≡ (420, none) ∷ (410, some 400) ∷ (250, none) ∷ (210, some 200) ∷ []
unfolding run save_if_leader
four_saves = refl

-- A node that serves two shards, where every call succeeds.
abbrev options : Options
options = record {
  cleanup = false;
  schema_status = false;
  schema_status_cluster = false;
  save_snapshot = false;
  health_enable = false;
  snapshot_enable = true;
  replicate = true;
  publish = false;
  has_hash = false;
  shards = 2;
}

second-Listens : Listens 2 (main (λ a. ok tt) options).0
unfolding main
second-Listens = inr (inr (inr (inr (inr (inr (inr (inr (inl refl))))))))

main-IsReady_example : IsReady (λ a. ok tt) 2 looping options (main (λ a. ok tt) options).0
main-IsReady_example = main-IsReady (λ a. ok tt) options 2 second-Listens
