-- ===== src/Db/Sqlite.antt =====
-- db/cleanup.go and db/sqlite.go: the objects of the database's schema that HarmonyLite creates and
-- drops, and the user's tables. A statement is translated to its effect on `sqlite_schema`; names
-- are compared as they are written. What a statement or a call of the pool returns is an argument.
-- `like p n` is `n LIKE 'p%'`.
pub mod Install
pub mod Tables
pub mod Drops
pub mod Clean
pub mod Restore
use harmonylite.Prelude.{
  keep, ◌≐◌, String, Bool, true, false, not, ◌&&◌, ◌||◌, Option, none, some, List, [], ◌∷◌, ◌++◌,
  map, if◌then◌else◌, ◌>>◌, Outcome, ok, err, string_eq, nat_eq,
}

-- A row of `sqlite_schema`: its name, and for an index or a trigger the table it belongs to.
pub data SchemaObject : Type 0 where
  table : String → SchemaObject
  index trigger : String → String → SchemaObject

abbrev pub name : SchemaObject → String
name (table n) = n
name (index n t) = n
name (trigger n t) = n

abbrev pub tbl_name : SchemaObject → String
tbl_name (table n) = n
tbl_name (index n t) = t
tbl_name (trigger n t) = t

abbrev pub is_table : SchemaObject → Bool
is_table (table n) = true
is_table _ = false

abbrev pub is_trigger : SchemaObject → Bool
is_trigger (trigger n t) = true
is_trigger _ = false

abbrev pub is_same : SchemaObject → SchemaObject → Bool
is_same (table n) (table m) = n ≐ m
is_same (index n t) (index m u) = n ≐ m
is_same (trigger n t) (trigger m u) = n ≐ m
is_same _ _ = false

-- The statements that HarmonyLite runs on the schema; `auto` says whether a column has
-- AUTOINCREMENT, for which SQLite keeps the table `sqlite_sequence`.
pub data Statement : Type 0 where
  create_table : Bool → String → Statement
  create_index create_trigger : String → String → Statement
  drop_trigger drop_table : String → Statement

pub present : SchemaObject → List SchemaObject → Bool
present o [] = false
present o (p ∷ s) = is_same o p || present o s

-- `CREATE ... IF NOT EXISTS`
pub add : SchemaObject → List SchemaObject → List SchemaObject
unfolding present
add o s = if present o s then s else s ++ o ∷ []

unfoldable pub apply : Statement → List SchemaObject → List SchemaObject
unfolding add
apply (create_table auto n) s =
    let s' = add (table n) s in if auto then add (table "sqlite_sequence") s' else s'
apply (create_index n t) s = add (index n t) s
apply (create_trigger n t) s = add (trigger n t) s
apply (drop_trigger n) s = keep (λ o. not (is_trigger o && name o ≐ n)) s
apply (drop_table n) s = keep (λ o. not (tbl_name o ≐ n)) s

-- The statements of a script, or of a loop that ends with the first error.
unfoldable pub exec :
    (Statement → Outcome) → List Statement → List SchemaObject → Outcome × List SchemaObject
unfolding apply
exec io [] s = (ok tt, s)
exec io (q ∷ qs) s =
    let rest = exec io qs (apply q s) in elim (io q) [ err e ↦ (err e, s) | ok _ ↦ rest ]

-- What the calls of a removal return.
pub record RemoveIo : Type 0 where
  pub borrow : Outcome
  pub select_triggers : Outcome
  pub select_tables : Outcome
  pub run : Statement → Outcome

abbrev pub harmony_lite_prefix : String
harmony_lite_prefix = "__harmonylite__"

-- What `BackupTo` meets: the copy into the backup file, closing and opening, and the last VACUUM.
pub record BackupIo : Type 0 where
  pub open_db : Outcome
  pub vacuum_into : Outcome
  pub close_raw : Outcome
  pub close : Outcome
  pub open_copy : Outcome
  pub remove : RemoveIo
  pub vacuum : Outcome

module _ (like : String → String → Bool) where
  -- `SELECT name FROM sqlite_master WHERE type = 'trigger' AND name LIKE ?`
  pub trigger_names : String → List SchemaObject → List String
  trigger_names prefix [] = []
  trigger_names prefix (o ∷ s) =
      let rest = trigger_names prefix s in
      if is_trigger o && like prefix (name o) then name o ∷ rest else rest

  pub table_names : String → List SchemaObject → List String
  table_names prefix [] = []
  table_names prefix (o ∷ s) =
      let rest = table_names prefix s in
      if is_table o && like prefix (name o) then name o ∷ rest else rest

  unfoldable pub remove_harmony_lite_triggers :
      RemoveIo → String → List SchemaObject → Outcome × List SchemaObject
  unfolding trigger_names exec
  remove_harmony_lite_triggers io prefix s = elim io.select_triggers [
    | err e ↦ (err e, s)
    | ok _ ↦ exec io.run (map drop_trigger (trigger_names prefix s)) s
  ]

  unfoldable pub remove_harmony_lite_tables :
      RemoveIo → String → List SchemaObject → Outcome × List SchemaObject
  unfolding table_names exec
  remove_harmony_lite_tables io prefix s = elim io.select_tables [
    | err e ↦ (err e, s)
    | ok _ ↦ exec io.run (map drop_table (table_names prefix s)) s
  ]

  -- The tables are removed after the triggers, if `tables` says so.
  pub then_tables : RemoveIo → Bool → Outcome × List SchemaObject → Outcome × List SchemaObject
  unfolding remove_harmony_lite_tables
  then_tables io tables (err e, s) = (err e, s)
  then_tables io tables (ok _, s) =
      if tables then remove_harmony_lite_tables io harmony_lite_prefix s else (ok tt, s)

  unfoldable pub remove_cdc : RemoveIo → Bool → List SchemaObject → Outcome × List SchemaObject
  unfolding then_tables remove_harmony_lite_triggers
  remove_cdc io tables s = elim io.borrow [
    | err e ↦ (err e, s)
    | ok _ ↦ then_tables io tables (remove_harmony_lite_triggers io harmony_lite_prefix s)
  ]

  -- The backup file's schema, where there is one, beside the result.
  pub on_removed : BackupIo → Outcome × List SchemaObject → Outcome × Option (List SchemaObject)
  on_removed io (err e, s) = (err e, some s)
  on_removed io (ok _, s) = (io.vacuum, some s)

  pub strip : BackupIo → List SchemaObject → Outcome × Option (List SchemaObject)
  unfolding on_removed then_tables remove_harmony_lite_triggers
  strip io s =
      on_removed io
        (then_tables io.remove true (remove_harmony_lite_triggers io.remove harmony_lite_prefix s))

  unfoldable pub backup_to : BackupIo → List SchemaObject → Outcome × Option (List SchemaObject)
  unfolding strip
  backup_to io s = elim (io.open_db >> io.vacuum_into) [
    | err e ↦ (err e, none)
    | ok _ ↦ elim (io.close_raw >> io.close >> io.open_copy) [
      | err e ↦ (err e, some s)
      | ok _ ↦ strip io s
    ]
  ]

  -- `listDBTables`, which `GetAllDBTables` runs in a transaction.
  unfoldable pub list_db_tables : List SchemaObject → List String
  list_db_tables [] = []
  list_db_tables (o ∷ s) =
      let rest = list_db_tables s in
      if is_table o && not (like "sqlite_" (name o)) && not (like harmony_lite_prefix (name o))
      then name o ∷ rest
      else rest
