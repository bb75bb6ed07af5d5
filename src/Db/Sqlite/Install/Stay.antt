-- ===== src/Db/Sqlite/Install/Stay.antt =====
-- `InstallCDC` and `RemoveCDC` of db/sqlite.go, and what `listDBTables` lists.
use Prim.Native.String.{◌++◌ as ◌^^◌}
use harmonylite.Prelude.{
  All, Dict, String, ◌≡◌, refl, ◌∙◌, Bool, false, some, List, [], ◌∷◌, arith, Outcome, ok, err,
}
use harmonylite.Db.SchemaCache.{SchemaCache, initialize, new_schema_cache}
use harmonylite.Db.Event.{ColumnInfo}
use harmonylite.Db.Sqlite.Tables.{MatchesPrefix, IsOwn, tables-exec, tables-remove_cdc}
use harmonylite.Db.Sqlite.Install.{
  InstallIo, table_cdc_script_for, init_triggers, init_each, install_change_log_triggers,
  Installation, on_triggers, on_cache, with_cache, on_version, install_cdc, log_name,
  trigger_script, init_global_change_log, on_infos, global_cdc_script, kinds, read_infos,
  SchemaCache, initialize,
}
use harmonylite.Db.Sqlite.{
  SchemaObject, create_table, list_db_tables, harmony_lite_prefix, remove_cdc, RemoveIo,
}

module _ (like : String → String → Bool) (matches : MatchesPrefix like) where
  module _ (trim : String → String) (io : InstallIo) where
    script-IsOwn : (t : String) → All (IsOwn like matches) (table_cdc_script_for t)
    unfolding table_cdc_script_for log_name trigger_script
    script-IsOwn t = (matches harmony_lite_prefix (t ^^ "_change_log"), (tt, triggers-IsOwn kinds))
      where
        triggers-IsOwn : (ks : List String) → All (IsOwn like matches) (trigger_script t ks)
        triggers-IsOwn [] = tt
        triggers-IsOwn (k ∷ ks) = (tt, (tt, triggers-IsOwn ks))

    tables-init_triggers :
        (watch : Dict String (List ColumnInfo)) (t : String) (s : List SchemaObject)
        → list_db_tables like (init_triggers trim io watch t s).1 ≡ list_db_tables like s
    unfolding init_triggers
    tables-init_triggers watch t s = ground (
      arith,
      tables-exec like matches io.run (table_cdc_script_for (trim t)) s (script-IsOwn (trim t)),
    )

    tables-init_each :
        (watch later : Dict String (List ColumnInfo)) (r : Outcome × List SchemaObject)
        → list_db_tables like (init_each trim io watch later r).1 ≡ list_db_tables like r.1
    unfolding init_each
    tables-init_each watch [] (err e, s) = refl
    tables-init_each watch (x ∷ later) (err e, s) = refl
    tables-init_each watch [] (ok u, s) = refl
    tables-init_each watch ((t, columns) ∷ later) (ok u, s) =
        tables-init_each watch later (init_triggers trim io watch t s)
        ∙ tables-init_triggers watch t s

    tables-install_change_log_triggers :
        (watch : Dict String (List ColumnInfo)) (s : List SchemaObject)
        → list_db_tables like (install_change_log_triggers trim io watch s).1
          ≡ list_db_tables like s
    unfolding install_change_log_triggers
    tables-install_change_log_triggers watch s =
        tables-init_each watch watch (init_global_change_log trim io s) ∙ global
      where
        global : list_db_tables like (init_global_change_log trim io s).1 ≡ list_db_tables like s
        global =
            unfold init_global_change_log in
            ground (
              arith,
              tables-exec like matches io.run global_cdc_script s
                  (matches harmony_lite_prefix "_change_log_global", tt),
            )

    -- The user's tables after a step of the installation are those before it.
    abbrev Stay : Installation → Outcome × Installation → Type 0
    Stay db r = list_db_tables like r.1.schema ≡ list_db_tables like db.schema

    Stay-on_triggers :
        (db : Installation) (r : Outcome × List SchemaObject)
        → list_db_tables like r.1 ≡ list_db_tables like db.schema
        → Stay db (on_triggers trim io db r)
    unfolding on_triggers
    Stay-on_triggers db (err e, s) h = h
    Stay-on_triggers db (ok u, s) h = h

    Stay-on_cache :
        (db : Installation) (r : Outcome × SchemaCache) → Stay db (on_cache trim io db r)
    unfolding on_cache
    Stay-on_cache db (err e, c) = refl
    Stay-on_cache db (ok u, c) = by_store io.store
      where
        after : Installation
        after = record db { schema_cache = some c; version = some c.schema_hash }

        by_store :
            (x : Outcome)
            → Stay db (elim x [
              | err e ↦ (err e, record db { schema_cache = some c })
              | ok _ ↦
                  on_triggers trim io after
                    (install_change_log_triggers trim io db.watch_tables_schema db.schema)
            ])
        by_store (err e) = refl
        by_store (ok v) =
            Stay-on_triggers after
              (install_change_log_triggers trim io db.watch_tables_schema db.schema)
              (tables-install_change_log_triggers db.watch_tables_schema db.schema)

    Stay-with_cache :
        (tables : List String) (db : Installation) → Stay db (with_cache trim io tables db)
    unfolding with_cache
    Stay-with_cache tables db =
        ground (arith, Stay-on_cache db (initialize io.compute tables new_schema_cache))

    Stay-on_version :
        (tables : List String) (db : Installation) (r : Outcome × List SchemaObject)
        → list_db_tables like r.1 ≡ list_db_tables like db.schema
        → Stay db (on_version trim io tables db r)
    unfolding on_version
    Stay-on_version tables db (err e, s) h = refl
    Stay-on_version tables db (ok u, s) h =
        ground (arith, Stay-with_cache tables (record db { schema = s }))

    Stay-install_cdc :
        (tables : List String) (db : Installation) → Stay db (install_cdc trim io tables db)
    unfolding install_cdc
    Stay-install_cdc tables db =
        ground (arith, on_read (read_infos io.info tables db.watch_tables_schema))
      where
        on_read :
            (r : Outcome × Dict String (List ColumnInfo)) → Stay db (on_infos trim io tables db r)
        on_read (err e, watch) = unfold on_infos in refl
        on_read (ok u, watch) =
            unfold on_infos in
            Stay-on_version tables (record db { watch_tables_schema = watch }) _
              (tables-exec like matches io.run
                (create_table false "__harmonylite__schema_version" ∷ []) db.schema
                (matches harmony_lite_prefix "schema_version", tt))

  -- If `LIKE 'p%'` matches the names that begin with `p`, and perhaps others, neither an installation
  -- nor a removal changes what `listDBTables` lists, whatever fails on the way: the tables whose names
  -- match neither `sqlite_%` nor the prefix of HarmonyLite. A user's table whose name matches through
  -- a wildcard is not listed, and nothing is said of it.
  pub user_tables_stay :
      (trim : String → String) (io : InstallIo) (tables : List String) (db : Installation)
      (remove : RemoveIo) (with_tables : Bool) (s : List SchemaObject)
      → (list_db_tables like (install_cdc trim io tables db).1.schema
          ≡ list_db_tables like db.schema)
        × (list_db_tables like (remove_cdc like remove with_tables s).1 ≡ list_db_tables like s)
  user_tables_stay trim io tables db remove with_tables s =
      (Stay-install_cdc trim io tables db, tables-remove_cdc like matches remove with_tables s)
