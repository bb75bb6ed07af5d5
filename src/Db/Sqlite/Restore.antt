-- ===== src/Db/Sqlite/Restore.antt =====
-- `RestoreFrom`, `copyFile` and `performCheckpoint` of db/sqlite.go. A file is its name's entry in a
-- map. What opening, transactions and the system calls return is an argument.
pub mod Copied
use Prim.Native.String.{◌++◌ as ◌^^◌}
use text.Mathlib.TextLemmas.{append_cancel_left, append-nil}
use harmonylite.Prelude.{
  take, Dict, lookup, insert, ℕ, String, Option, none, some, List, [], ◌∷◌, ◌==◌, if◌then◌else◌,
  Err, Result, ◌>>◌, Outcome, ok, err, string_eq, nat_eq,
}
use harmonylite.Prelude.Results.{external}
use harmonylite.Db.Sqlite.{SchemaObject}
use harmonylite.Db.Sqlite.Install.{Installation}

abbrev pub Files : Type 0
Files = Dict String (List ℕ)

-- What the copy of one file meets: opening the source, opening the destination, and after how many
-- bytes the copy ends, if it ends with an error.
pub record CopyIo : Type 0 where
  pub open_from : Outcome
  pub open_to : Outcome
  pub fails_after : Option (ℕ × Err)

-- The copy's result, where the source has these bytes. `O_TRUNC` empties the destination first.
unfoldable pub write_copy : CopyIo → String → List ℕ → Files → Outcome × Files
write_copy io to_path bytes files = elim io.fails_after [
  | none ↦ (ok tt, insert to_path bytes files)
  | some f ↦ (err f.1, insert to_path (take f.0 bytes) files)
]

-- A source that is not there cannot be opened.
unfoldable pub copy_file : CopyIo → String → String → Files → Outcome × Files
unfolding write_copy
copy_file io to_path from_path files = elim io.open_from [
  | err e ↦ (err e, files)
  | ok _ ↦ elim (lookup from_path files) [
    | none ↦ (err (external 2), files)
    | some bytes ↦ elim io.open_to [
      | err e ↦ (err e, files)
      | ok _ ↦ write_copy io to_path bytes files
    ]
  ]
]

-- One answer to `PRAGMA wal_checkpoint(truncate)`: an error, or whether it was busy. The loop of the
-- code has no bound; here it ends with the answers, which stands for a loop that goes on.
unfoldable pub perform_checkpoint : List (Result ℕ) → Option Outcome
perform_checkpoint [] = none
perform_checkpoint (err e ∷ later) = some (err e)
perform_checkpoint (ok busy ∷ later) =
    let rest = perform_checkpoint later in if busy == 0 then some (ok tt) else rest

-- What a restoration meets. The files are those after both databases were opened and locked. `settle`
-- is what SQLite does to them from the last copy on: the checkpoint, which moves the WAL into the
-- database's file and truncates it, and the closing of the connections.
pub record RestoreIo : Type 0 where
  pub open_dest : Outcome
  pub open_src : Outcome
  pub begin : Outcome
  pub copy : CopyIo
  pub copy_shm : CopyIo
  pub copy_wal : CopyIo
  pub commit : Outcome
  pub checkpoint : List (Result ℕ)
  pub settle : Files → Files

pub then_copy : CopyIo → String → String → Outcome × Files → Outcome × Files
unfolding copy_file
then_copy io to_path from_path (err e, files) = (err e, files)
then_copy io to_path from_path (ok _, files) = copy_file io to_path from_path files

-- The end of the transactions does not undo a copy.
pub on_copied : RestoreIo → Outcome × Files → Option (Outcome × Files)
unfolding perform_checkpoint
on_copied io (err e, files) = some (err e, io.settle files)
on_copied io (ok _, files) = elim io.commit [
  | err e ↦ some (err e, io.settle files)
  | ok _ ↦ elim (perform_checkpoint io.checkpoint) [
    | none ↦ none
    | some r ↦ some (r, io.settle files)
  ]
]

-- `RestoreFrom`, with the files after it. `none` is a checkpoint that stays busy.
unfoldable pub restore_from : RestoreIo → String → String → Files → Option (Outcome × Files)
unfolding then_copy on_copied
restore_from io dest bk files = elim (io.open_dest >> io.open_src >> io.begin) [
  | err e ↦ some (err e, files)
  | ok _ ↦ on_copied io (
      then_copy io.copy_wal (dest ^^ "-wal") (bk ^^ "-wal")
        (then_copy io.copy_shm (dest ^^ "-shm") (bk ^^ "-shm") (copy_file io.copy dest bk files)))
]

-- `OpenStreamDB`: the pool, a connection of it, and a checkpoint. The database has the schema that
-- it had, and no table is watched yet.
unfoldable pub open_stream_db :
    Outcome → Outcome → List (Result ℕ) → List SchemaObject → Option (Result Installation)
unfolding perform_checkpoint
open_stream_db new_pool borrow checkpoint schema = elim (new_pool >> borrow) [
  | err e ↦ some (err e)
  | ok _ ↦ elim (perform_checkpoint checkpoint) [
    | none ↦ none
    | some (err e) ↦ some (err e)
    | some (ok _) ↦ some (
        ok (record {
          schema = schema;
          version = none;
          watch_tables_schema = [];
          schema_cache = none;
        }))
  ]
]
