-- ===== src/Tests/StatusTests.antt =====
-- The reports of the program on schemas, for a node and for a cluster of two.
use harmonylite.Prelude.{
  All, ℕ, ◌≤◌, String, ◌≡◌, refl, ◌≢◌, ◌↔◌, true, false, none, some, [], ◌∷◌, ok,
}
use harmonylite.Logstream.SchemaRegistry.{NodeSchemaState}
use harmonylite.Db.Sqlite.{table}
use harmonylite.Db.Sqlite.Install.{Installation}
use harmonylite.Db.Sqlite.Restore.{open_stream_db}
use harmonylite.Node.Start.{Action, Options, main, install_cdc}
use harmonylite.Node.Status.{title, uninitialized, print_local_schema_status}
use harmonylite.Node.Status.Groups.{consistent_iff_one_group, verdict, printed, group_count}
use harmonylite.Node.Status.Uninitialized.{status_is_uninitialized}

abbrev member : ℕ → String → ℕ × NodeSchemaState
member n h = (
  n,
  record {
    node_id = n;
    schema_hash = h;
    previous_hash = "";
    harmony_lite_version = "";
    updated_at = 0;
  },
)

consistent_iff_one_group_example :
    (verdict
        (printed (λ xs. xs) (λ xs. xs) (λ xs. xs) (λ gs. gs) (member 1 "a") (member 2 "b" ∷ []))
      ≡ some true)
    ↔ (group_count
          (printed (λ xs. xs) (λ xs. xs) (λ xs. xs) (λ gs. gs) (member 1 "a") (member 2 "b" ∷ []))
        ≤ 1)
consistent_iff_one_group_example =
    consistent_iff_one_group (λ xs. xs) (λ xs. xs) (λ xs. xs) (λ gs. gs)
      (λ xs Q. ((λ a. a), (λ a. a))) (λ xs Q. ((λ a. a), (λ a. a))) (λ gs. refl) (member 1 "a")
      (member 2 "b" ∷ [])

abbrev status_options : Options
status_options = record {
  cleanup = false;
  schema_status = true;
  schema_status_cluster = false;
  save_snapshot = false;
  health_enable = false;
  snapshot_enable = true;
  replicate = true;
  publish = true;
  has_hash = false;
  shards = 1;
}

abbrev opened : Installation
opened = record {
  schema = table "Books" ∷ [];
  version = none;
  watch_tables_schema = [];
  schema_cache = none;
}

status_is_uninitialized_example :
    All (λ (a : Action). a ≢ install_cdc) (main (λ a. ok tt) status_options).0
    × (print_local_schema_status 7 "dev" (ok ("Books" ∷ [])) opened ≡ title ∷ uninitialized ∷ [])
unfolding open_stream_db
status_is_uninitialized_example =
    status_is_uninitialized (λ a. ok tt) status_options (ok tt) (ok tt) (ok 0 ∷ [])
      (table "Books" ∷ []) opened 7 "dev" (ok ("Books" ∷ [])) refl refl refl refl
