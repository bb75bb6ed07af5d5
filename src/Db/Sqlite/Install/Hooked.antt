-- ===== src/Db/Sqlite/Install/Hooked.antt =====
-- The triggers of the watched tables after `InstallCDC` of db/sqlite.go.
use harmonylite.Prelude.{All, String, ◌≡◌, List, Outcome, ok}
use harmonylite.Db.SchemaCache.{initialize, SchemaCache}
use harmonylite.Db.Event.{ColumnInfo}
use harmonylite.Db.Sqlite.Install.{InstallIo, Installation, initialize}
use harmonylite.Db.Sqlite.Install.Scripts.{AllHooked}

module _ (trim : String → String) (io : InstallIo) where
  -- What an installation comes to: if it succeeds, each watched table has its three triggers.
  abbrev IsHooked : Outcome × Installation → Type 0
  IsHooked r =
      (r.0 ≡ ok tt)
      → All (λ (x : String × List ColumnInfo). AllHooked (trim x.0) r.1.schema)
          r.1.watch_tables_schema
