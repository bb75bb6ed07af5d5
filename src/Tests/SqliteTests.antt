-- ===== src/Tests/SqliteTests.antt =====
-- The theorems on the database's schema and files at concrete inputs.
use Prim.Native.String.{◌++◌ as ◌^^◌}
use text.Mathlib.Text.{starts_with}
use text.Mathlib.TextEquality.{starts_with_iff}
use mathlib.Core.List.{append-nil}
use harmonylite.Prelude.{
  lookup-insert, ≐_ne, lookup, insert, ℕ, String, ◌≡◌, refl, sym, ap, ◌∙◌, Bool, true, false,
  Option, none, some, List, [], ◌∷◌, ◌++◌, arith, Result, ok, string_eq, nat_eq,
}
use harmonylite.Db.Event.{ColumnInfo, ChangeLogEvent, null, int}
use harmonylite.Db.Sqlite.{
  SchemaObject, table, index, trigger, RemoveIo, BackupIo, remove_cdc, list_db_tables,
}
use harmonylite.Db.Sqlite.Tables.{MatchesPrefix}
use harmonylite.Db.Sqlite.Install.{
  TableInfo, InstallIo, Installation, install_cdc, get_table_info, rowid_column, scanned,
}
use harmonylite.Db.Sqlite.Install.Stay.{user_tables_stay}
use harmonylite.Db.Sqlite.Restore.{Files, restore_from}
use harmonylite.Db.Sqlite.Restore.Copied.{
  restore_from-contents, contents, read_at, whole_restore, HasFiles,
}

-- A `LIKE` that takes no character for a wildcard.
abbrev like : String → String → Bool
like p n = starts_with n p

like-MatchesPrefix : MatchesPrefix like
like-MatchesPrefix p s = (starts_with_iff (p ^^ s) p).1 (s, refl)

abbrev remove_io : RemoveIo
remove_io = record {
  borrow = ok tt;
  select_triggers = ok tt;
  select_tables = ok tt;
  run = λ q. ok tt;
}

abbrev schema : List SchemaObject
schema =
    table "books"
    ∷ trigger "my_trigger" "books"
    ∷ table "__harmonylite__books_change_log"
    ∷ index "__harmonylite__books_change_log_state_index" "__harmonylite__books_change_log"
    ∷ trigger "__harmonylite__books_change_log_on_insert" "books"
    ∷ []

abbrev backup_io : BackupIo
backup_io = record {
  open_db = ok tt;
  vacuum_into = ok tt;
  close_raw = ok tt;
  close = ok tt;
  open_copy = ok tt;
  remove = remove_io;
  vacuum = ok tt;
}

-- A table without a key of its own.
abbrev title : TableInfo
title = record { name = "title"; type = "TEXT"; notnull = false; dflt_value = null; pk = 0 }

abbrev title_rows : Result (List (Result TableInfo))
title_rows = ok (ok title ∷ [])

abbrev install_io : InstallIo
install_io = record {
  borrow = ok tt;
  begin = ok tt;
  info = λ t. title_rows;
  commit = ok tt;
  manager = ok tt;
  compute = λ ts. ok "abc";
  store = ok tt;
  borrow_for = λ t. ok tt;
  run = λ q. ok tt;
  watcher = ok tt;
}

abbrev installation : Installation
installation = record {
  schema = table "books" ∷ [];
  version = none;
  watch_tables_schema = [];
  schema_cache = none;
}

user_tables_stay_example :
    (list_db_tables like (install_cdc (λ t. t) install_io ("books" ∷ []) installation).1.schema
      ≡ list_db_tables like installation.schema)
    × (list_db_tables like (remove_cdc like remove_io true schema).1 ≡ list_db_tables like schema)
user_tables_stay_example =
    user_tables_stay like like-MatchesPrefix (λ t. t) install_io ("books" ∷ []) installation
      remove_io true schema

abbrev columns : List ColumnInfo
columns = scanned title ∷ rowid_column ∷ []

abbrev event : ChangeLogEvent
event = record {
  id = 1;
  type = "delete";
  table_name = "books";
  row = ("title", null) ∷ ("rowid", int 5) ∷ [];
  schema_hash = "abc";
  table_info = columns;
}

columns_read : get_table_info title_rows ≡ ok columns
unfolding get_table_info
columns_read = refl

abbrev files : Files
files = ("bk", 1 ∷ []) ∷ ("bk-shm", 2 ∷ []) ∷ ("bk-wal", 3 ∷ []) ∷ ("db", 9 ∷ 9 ∷ []) ∷ []

bk_files : HasFiles "bk" (1 ∷ []) (2 ∷ []) (3 ∷ []) files
unfolding lookup
bk_files = (refl, refl, refl)

-- A checkpoint that moves the WAL's bytes to the end of the database's file.
abbrev moved : Option (List ℕ) → Option (List ℕ) → Files → Files
moved (some main) (some wal) fs = insert "db-wal" [] (insert "db" (main ++ wal) fs)
moved _ _ fs = fs

abbrev checkpointed : Files → Files
checkpointed fs = moved (lookup "db" fs) (lookup "db-wal" fs) fs

abbrev read_all : List ℕ → Option (List ℕ) → List ℕ
read_all main none = main
read_all main (some wal) = main ++ wal

checkpointed-contents :
    (fs : Files) → contents read_all "db" (checkpointed fs) ≡ contents read_all "db" fs
checkpointed-contents fs = by_files (lookup "db" fs) (lookup "db-wal" fs) refl refl
  where
    by_files :
        (x y : Option (List ℕ))
        → lookup "db" fs ≡ x
        → lookup "db-wal" fs ≡ y
        → contents read_all "db" (moved x y fs) ≡ contents read_all "db" fs
    by_files none y p q = refl
    by_files (some main) none p q = refl
    by_files (some main) (some wal) p q =
        ap (λ x. read_at read_all x (lookup "db-wal" (moved (some main) (some wal) fs)))
          (lookup-insert "db-wal" "db" [] (insert "db" (main ++ wal) fs)
            ∙ lookup-insert "db" "db" (main ++ wal) fs)
        ∙ ap (read_at read_all (some (main ++ wal)))
            (lookup-insert "db-wal" "db-wal" [] (insert "db" (main ++ wal) fs))
        ∙ ap some (append-nil (main ++ wal))
        ∙ sym (
            ap (λ x. read_at read_all x (lookup "db-wal" fs)) p
            ∙ ap (read_at read_all (some main)) q)

restore_from-contents_example :
    (after : Files) × (restore_from
        (whole_restore checkpointed (ok 1 ∷ ok 1 ∷ ok 0 ∷ []))
        "db"
        "bk"
        files
      ≡ some (ok tt, after))
    × (contents read_all "db" after ≡ contents read_all "bk" files)
restore_from-contents_example =
    restore_from-contents read_all checkpointed "db" "bk" checkpointed-contents (1 ∷ []) (2 ∷ [])
      (3 ∷ []) files (1 ∷ 1 ∷ []) []
      (≐_ne "db" "bk-shm" refl, ≐_ne "db" "bk-wal" refl, ≐_ne "db-shm" "bk-wal" refl) bk_files
      (λ h. omega arith, (λ h. omega arith, tt))
