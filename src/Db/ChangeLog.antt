-- ===== src/Db/ChangeLog.antt =====
-- db/change_log.go: the change log of each watched table and the global list of changes, their
-- recording by the triggers, and the cleaning up. The tables are those of
-- table_change_log_script.tmpl and global_change_log_script.tmpl. The statements that the code builds
-- are translated to the rows that they select or change. An `id` is of AUTOINCREMENT, so that
-- `Order("id")` is the order of the list. Metrics and logging are left out.
pub mod Publication
pub mod Invariant
pub mod Delivery
pub mod Cleanup
pub mod Feed
pub mod Watch
use harmonylite.Prelude.{
  length, keep, Dict, lookup, insert, ℕ, suc, ◌+◌, ◌-◌, String, Bool, true, false, not, ◌&&◌,
  Option, none, some, List, [], ◌∷◌, ◌++◌, leb, if◌then◌else◌, Result, Outcome, ok, err, string_eq,
  nat_eq,
}
use harmonylite.Db.Event.Hashing.{or_null}
use harmonylite.Db.Event.{Row, ColumnInfo, ChangeLogEvent, null}

pub data ChangeState : Type 0 where
  pending published failed : ChangeState

-- A row of `<prefix><table>_change_log`. `row` holds its `val_` columns.
pub record LogRow : Type 0 where
  pub id : ℕ
  pub type : String
  pub row : Row
  pub created_at : ℕ
  pub state : ChangeState

-- `next` is AUTOINCREMENT's next id: ids are not used again.
pub record ChangeTable : Type 0 where
  pub rows : List LogRow
  pub next : ℕ

-- A row of `<prefix>_change_log_global`.
pub record GlobalChange : Type 0 where
  pub id : ℕ
  pub change_table_id : ℕ
  pub table_name : String

-- The database's change tables, the watched tables, the schema hash, and the events that `OnChange`
-- has taken.
pub record StreamDb : Type 0 where
  pub logs : Dict String ChangeTable
  pub global : List GlobalChange
  pub next_global : ℕ
  pub watch_tables_schema : Dict String (List ColumnInfo)
  pub schema_hash : String
  pub sent : List ChangeLogEvent

abbrev pub empty_log : ChangeTable
empty_log = record { rows = []; next = 1 }

abbrev pub or_empty : Option ChangeTable → ChangeTable
or_empty none = empty_log
or_empty (some t) = t

-- The change table of a table. A statement on one that is not there fails, by `Env`.
abbrev pub log_of : StreamDb → String → ChangeTable
log_of s t = or_empty (lookup t s.logs)

abbrev pub columns_of : StreamDb → String → List ColumnInfo
columns_of s t = elim (lookup t s.watch_tables_schema) [ none ↦ [] | some cs ↦ cs ]

-- The trigger's statements: one row in the table's log, and one in the global list.
unfoldable pub record_change : String → String → Row → ℕ → StreamDb → StreamDb
record_change type table row now s =
    let log = log_of s table in
    let r : LogRow = record {
      id = log.next;
      type = type;
      row = row;
      created_at = now;
      state = pending;
    } in
    record s {
      logs = insert table (record { rows = log.rows ++ r ∷ []; next = suc log.next }) s.logs;
      global =
          s.global
          ++ (record { id = s.next_global; change_table_id = log.next; table_name = table }) ∷ [];
      next_global = suc s.next_global;
    }

-- The trigger. `is_own` says that the connection has the function `harmonylite_version`, as those
-- that HarmonyLite itself opens have: their changes are not recorded.
unfoldable pub capture : Bool → String → String → Row → ℕ → StreamDb → StreamDb
unfolding record_change
capture is_own type table row now s = if is_own then s else record_change type table row now s

-- `DELETE ... WHERE state = Published AND created_at <= ?`
abbrev pub is_published : ChangeState → Bool
is_published published = true
is_published _ = false

abbrev pub is_old : ℕ → LogRow → Bool
is_old before r = is_published r.state && leb r.created_at before

pub delete_old : ℕ → List LogRow → List LogRow
delete_old before = keep (λ r. not (is_old before r))

-- The loop over the watched tables. `fails` says which table's statement fails; the tables before
-- it are cleaned up, and the count is given up.
unfoldable pub cleanup_change_logs :
    (String → Outcome) → ℕ → List String → ℕ → StreamDb → Result ℕ × StreamDb
unfolding delete_old
cleanup_change_logs fails before [] total s = (ok total, s)
cleanup_change_logs fails before (t ∷ ts) total s =
    let log = log_of s t in
    let rows = delete_old before log.rows in
    let rest =
      cleanup_change_logs fails before ts (total + (length log.rows - length rows))
        (record s { logs = insert t (record log { rows = rows }) s.logs }) in
    elim (fails t) [ err e ↦ (err e, s) | ok _ ↦ rest ]
