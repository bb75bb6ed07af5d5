-- ===== src/Db/Replicate.antt =====
-- The application of an event from another node: `consumeReplicationEvent`, `getPrimaryKeyMap` and
-- `replicateRow` of db/change_log.go. A statement is kept as its parts instead of its text, and what
-- the pool, the transaction and the statement return is an argument. `Replicate`, which calls it
-- and logs its error, is left out.
pub mod Applied
pub mod Replay
use harmonylite.Prelude.{
  Dict, ◌≐◌, lookup, String, ◌||◌, Option, none, some, List, [], ◌∷◌, if◌then◌else◌, Result,
  Outcome, ok, err, string_eq, nat_eq,
}
use harmonylite.Prelude.Results.{no_table_mapping, invalid_operation}
use harmonylite.Db.Event.{Row, Value, ColumnInfo, ChangeLogEvent}
use harmonylite.Db.Event.Hashing.{or_null}

-- `INSERT OR REPLACE INTO table(columns) VALUES (?, ...)` with its arguments, and
-- `DELETE FROM table WHERE ...` with the values of its conditions.
pub data Statement : Type 0 where
  upsert : String → List String → List Value → Statement
  delete_from : String → Row → Statement

unfoldable pub key_values : List ColumnInfo → Row → Row
key_values [] row = []
key_values (c ∷ cs) row =
    let rest = key_values cs row in
    if c.is_primary_key then (c.name, or_null (lookup c.name row)) ∷ rest else rest

-- `getPrimaryKeyMap`; nil where the table is not watched.
unfoldable pub get_primary_key_map : Dict String (List ColumnInfo) → ChangeLogEvent → Option Row
unfolding key_values
get_primary_key_map watch event = elim (lookup event.table_name watch) [
  | none ↦ none
  | some columns ↦ some (key_values columns event.row)
]

pub names : Row → List String
names [] = []
names ((k, v) ∷ row) = k ∷ names row

pub values : Row → List Value
values [] = []
values ((k, v) ∷ row) = v ∷ values row

-- `replicateRow`
unfoldable pub replicate_row : ChangeLogEvent → Row → Result Statement
unfolding names values
replicate_row event pk_map =
    if event.type ≐ "insert" || event.type ≐ "update"
    then ok (upsert event.table_name (names event.row) (values event.row))
    else if event.type ≐ "delete"
    then ok (delete_from event.table_name pk_map)
    else err invalid_operation

pub record TxIo : Type 0 where
  pub borrow : Outcome
  pub begin : Outcome
  pub exec : Statement → Outcome
  pub commit : Outcome

-- The statement in its transaction: an error rolls it back.
in_tx : TxIo → Statement → Outcome × List Statement
in_tx io s = elim (io.exec s) [
  | err e ↦ (err e, [])
  | ok _ ↦ elim io.commit [ err e ↦ (err e, []) | ok _ ↦ (ok tt, s ∷ []) ]
]

with_key : TxIo → ChangeLogEvent → Option Row → Outcome × List Statement
unfolding in_tx
with_key io event none = (err no_table_mapping, [])
with_key io event (some pk_map) = elim (replicate_row event pk_map) [
  | err e ↦ (err e, [])
  | ok s ↦ in_tx io s
]

-- `consumeReplicationEvent`, with the statements that were committed.
unfoldable pub consume_replication_event :
    TxIo → Dict String (List ColumnInfo) → ChangeLogEvent → Outcome × List Statement
unfolding with_key
consume_replication_event io watch event = elim io.borrow [
  | err e ↦ (err e, [])
  | ok _ ↦ elim io.begin [
    | err e ↦ (err e, [])
    | ok _ ↦ with_key io event (get_primary_key_map watch event)
  ]
]
