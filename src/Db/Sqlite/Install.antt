-- ===== src/Db/Sqlite/Install.antt =====
-- `InstallCDC` of db/sqlite.go with the scripts of db/change_log.go that create the change tables and
-- triggers, and the schema's version row. `db` is the part of SqliteStreamDB that these change. The
-- order of a Go map is the list's. `trim` is `strings.TrimSpace`.
pub mod Stay
pub mod Scripts
pub mod Hooked
pub mod Keyed
use Prim.Native.String.{◌++◌ as ◌^^◌}
use text.Mathlib.Text.{starts_with}
use harmonylite.Prelude.{
  Dict, lookup, insert, ℕ, String, Bool, true, false, ◌||◌, Option, none, some, List, [], ◌∷◌, ◌++◌,
  ltb, if◌then◌else◌, Result, ◌>>◌, Outcome, ok, err, string_eq, nat_eq,
}
use harmonylite.Prelude.Results.{table_not_found, invalid_table, not_initialized}
use harmonylite.Db.Event.{ColumnInfo, Value, null}
use harmonylite.Db.SchemaCache.{
  SchemaCache, Compute, new_schema_cache, initialize, is_initialized, recompute,
}
use harmonylite.Db.Sqlite.{
  SchemaObject, Statement, create_table, create_index, create_trigger, drop_trigger, exec,
  harmony_lite_prefix,
}

-- A row of `pragma_table_info`.
pub record TableInfo : Type 0 where
  pub name : String
  pub type : String
  pub notnull : Bool
  pub dflt_value : Value
  pub pk : ℕ

abbrev pub scanned : TableInfo → ColumnInfo
scanned r = record {
  name = r.name;
  type = r.type;
  not_null = r.notnull;
  default_value = r.dflt_value;
  primary_key_index = r.pk;
  is_primary_key = ltb 0 r.pk;
}

abbrev pub rowid_column : ColumnInfo
rowid_column = record {
  name = "rowid";
  type = "INT";
  not_null = true;
  default_value = null;
  primary_key_index = 0;
  is_primary_key = true;
}

-- The loop over the rows, with what it has read and whether a key was among it. The query and a
-- row may fail.
pub read_rows : List (Result TableInfo) → Bool → List ColumnInfo → Result (List ColumnInfo)
read_rows [] has_key columns = ok (if has_key then columns else columns ++ rowid_column ∷ [])
read_rows (err e ∷ rows) has_key columns = err e
read_rows (ok r ∷ rows) has_key columns =
    read_rows rows (has_key || ltb 0 r.pk) (columns ++ scanned r ∷ [])

unfoldable pub get_table_info : Result (List (Result TableInfo)) → Result (List ColumnInfo)
unfolding read_rows
get_table_info (err e) = err e
get_table_info (ok rows) = read_rows rows false []

-- The first loop of `InstallCDC`: the tables before a failing one are watched all the same.
unfoldable pub read_infos :
    (String → Result (List (Result TableInfo)))
    → List String
    → Dict String (List ColumnInfo)
    → Outcome × Dict String (List ColumnInfo)
unfolding get_table_info
read_infos info [] watch = (ok tt, watch)
read_infos info (n ∷ ns) watch = elim (get_table_info (info n)) [
  | err e ↦ (err e, watch)
  | ok columns ↦ read_infos info ns (insert n columns watch)
]

-- `table_change_log_script.tmpl`; the template ranges over the map's keys in their order.
unfoldable pub log_name : String → String
log_name t = harmony_lite_prefix ^^ t ^^ "_change_log"

unfoldable pub trigger_name : String → String → String
unfolding log_name
trigger_name t kind = log_name t ^^ "_on_" ^^ kind

abbrev pub kinds : List String
kinds = "delete" ∷ "insert" ∷ "update" ∷ []

pub trigger_script : String → List String → List Statement
unfolding trigger_name
trigger_script t [] = []
trigger_script t (k ∷ ks) =
    drop_trigger (trigger_name t k) ∷ create_trigger (trigger_name t k) t ∷ trigger_script t ks

unfoldable pub table_cdc_script_for : String → List Statement
unfolding log_name trigger_script
table_cdc_script_for t =
    create_table true (log_name t)
    ∷ create_index (log_name t ^^ "_state_index") (log_name t)
    ∷ trigger_script t kinds

-- `global_change_log_script.tmpl`
abbrev pub global_cdc_script : List Statement
global_cdc_script = create_table true "__harmonylite___change_log_global" ∷ []

-- What the calls of an installation return. `store` is the second transaction.
pub record InstallIo : Type 0 where
  pub borrow : Outcome
  pub begin : Outcome
  pub info : String → Result (List (Result TableInfo))
  pub commit : Outcome
  pub manager : Outcome
  pub compute : Compute
  pub store : Outcome
  pub borrow_for : String → Outcome
  pub run : Statement → Outcome
  pub watcher : Outcome

pub record Installation : Type 0 where
  pub schema : List SchemaObject
  pub version : Option String
  pub watch_tables_schema : Dict String (List ColumnInfo)
  pub schema_cache : Option SchemaCache

module _ (trim : String → String) (io : InstallIo) where
  unfoldable pub init_global_change_log : List SchemaObject → Outcome × List SchemaObject
  unfolding exec
  init_global_change_log s = elim (io.borrow_for "") [
    | err e ↦ (err e, s)
    | ok _ ↦ exec io.run global_cdc_script s
  ]

  unfoldable pub init_triggers :
      Dict String (List ColumnInfo) → String → List SchemaObject → Outcome × List SchemaObject
  unfolding exec table_cdc_script_for
  init_triggers watch table_name s =
      let t = trim table_name in
      elim (io.borrow_for table_name) [
        | err e ↦ (err e, s)
        | ok _ ↦
            if starts_with t "sqlite_" || starts_with t harmony_lite_prefix
            then (err invalid_table, s)
            else elim (lookup t watch) [
              | none ↦ (err table_not_found, s)
              | some columns ↦ exec io.run (table_cdc_script_for t) s
            ]
      ]

  pub init_each :
      Dict String (List ColumnInfo)
      → Dict String (List ColumnInfo)
      → Outcome × List SchemaObject
      → Outcome × List SchemaObject
  unfolding init_triggers
  init_each watch later (err e, s) = (err e, s)
  init_each watch [] (ok _, s) = (ok tt, s)
  init_each watch ((t, columns) ∷ later) (ok _, s) = init_each watch later (init_triggers watch t s)

  unfoldable pub install_change_log_triggers :
      Dict String (List ColumnInfo) → List SchemaObject → Outcome × List SchemaObject
  unfolding init_global_change_log init_each
  install_change_log_triggers watch s = init_each watch watch (init_global_change_log s)

  pub on_triggers : Installation → Outcome × List SchemaObject → Outcome × Installation
  on_triggers db (err e, s) = (err e, record db { schema = s })
  on_triggers db (ok _, s) = (io.watcher, record db { schema = s })

  pub on_cache : Installation → Outcome × SchemaCache → Outcome × Installation
  unfolding on_triggers install_change_log_triggers
  on_cache db (err e, c) = (err e, record db { schema_cache = some c })
  on_cache db (ok _, c) = elim io.store [
    | err e ↦ (err e, record db { schema_cache = some c })
    | ok _ ↦
        on_triggers (record db { schema_cache = some c; version = some c.schema_hash })
          (install_change_log_triggers db.watch_tables_schema db.schema)
  ]

  pub with_cache : List String → Installation → Outcome × Installation
  unfolding on_cache
  with_cache tables db = elim io.manager [
    | err e ↦ (err e, db)
    | ok _ ↦ on_cache db (initialize io.compute tables new_schema_cache)
  ]

  -- The first transaction is committed, or nothing of the schema changes.
  pub on_version : List String → Installation → Outcome × List SchemaObject → Outcome × Installation
  unfolding with_cache
  on_version tables db (err e, s) = (err e, db)
  on_version tables db (ok _, s) = elim io.commit [
    | err e ↦ (err e, db)
    | ok _ ↦ with_cache tables (record db { schema = s })
  ]

  pub on_infos :
      List String → Installation → Outcome × Dict String (List ColumnInfo) → Outcome × Installation
  unfolding on_version exec
  on_infos tables db (err e, watch) = (err e, record db { watch_tables_schema = watch })
  on_infos tables db (ok _, watch) =
      on_version tables (record db { watch_tables_schema = watch })
        (exec io.run (create_table false "__harmonylite__schema_version" ∷ []) db.schema)

  unfoldable pub install_cdc : List String → Installation → Outcome × Installation
  unfolding on_infos read_infos
  install_cdc tables db = elim (io.borrow >> io.begin) [
    | err e ↦ (err e, db)
    | ok _ ↦ on_infos tables db (read_infos io.info tables db.watch_tables_schema)
  ]

-- `UpdateSchemaState`; `store` is the transaction.
on_recomputed :
    Outcome → Outcome → Installation → Result String × SchemaCache → Outcome × Installation
on_recomputed borrow store db (err e, c) = (err e, record db { schema_cache = some c })
on_recomputed borrow store db (ok hash, c) = elim (borrow >> store) [
  | err e ↦ (err e, record db { schema_cache = some c })
  | ok _ ↦ (ok tt, record db { schema_cache = some c; version = some hash })
]

unfoldable pub update_schema_state :
    Compute → Outcome → Outcome → Installation → Outcome × Installation
unfolding on_recomputed
update_schema_state compute borrow store db = elim db.schema_cache [
  | none ↦ (err not_initialized, db)
  | some c ↦
      if is_initialized c
      then on_recomputed borrow store db (recompute compute c)
      else (err not_initialized, db)
]
