-- ===== src/Db/Sqlite/Install/Keyed.antt =====
-- The key among the columns that `getTableInfo` of db/sqlite.go reads, on which the condition of a
-- replicated delete (db/change_log.go) rests.
use harmonylite.Prelude.{
  entries, Dict, insert, String, ◌≡◌, refl, ◌≢◌, inl, inr, Bool, true, false, ◌||◌, some, List, [],
  ◌∷◌, ◌++◌, arith, ltb, Bool-cases, Result, ok, err, string_eq, nat_eq,
}
use harmonylite.Db.Event.{ColumnInfo, Row, ChangeLogEvent}
use harmonylite.Db.Replicate.{get_primary_key_map, key_values, replicate_row, delete_from}
use harmonylite.Db.Sqlite.Install.{TableInfo, get_table_info, read_rows, rowid_column, scanned}

any_key : List ColumnInfo → Bool
any_key [] = false
any_key (c ∷ cs) = c.is_primary_key || any_key cs

any_key-append : (cs ds : List ColumnInfo) → any_key (cs ++ ds) ≡ (any_key cs || any_key ds)
unfolding any_key
any_key-append [] ds = refl
any_key-append (c ∷ cs) ds = ground (arith, any_key-append cs ds)

read_rows-keyed :
    (rows : List (Result TableInfo)) (has_key : Bool) (columns read : List ColumnInfo)
    → has_key ≡ any_key columns
    → read_rows rows has_key columns ≡ ok read
    → any_key read ≡ true
unfolding read_rows any_key
read_rows-keyed [] true columns read e h = ground arith
read_rows-keyed [] false columns read e h =
    ground (arith, any_key-append columns (rowid_column ∷ []))
read_rows-keyed (err x ∷ rows) has_key columns read e h = cc
read_rows-keyed (ok r ∷ rows) has_key columns read e h =
    read_rows-keyed rows (has_key || ltb 0 r.pk) (columns ++ scanned r ∷ []) read
      (ground (arith, any_key-append columns (scanned r ∷ []))) h

keyed-key_values : (cs : List ColumnInfo) (row : Row) → any_key cs ≡ true → key_values cs row ≢ []
unfolding any_key key_values
keyed-key_values [] row h = cc
keyed-key_values (c ∷ cs) row h = elim (Bool-cases c.is_primary_key) [
  | inl e ↦ rw e (λ k. cc)
  | inr e ↦ rw e (keyed-key_values cs row (rw e at h))
]

-- A delete of a row of a table whose columns could be read, with or without a key of its own, runs
-- a statement with at least one condition.
pub delete_is_keyed :
    (rows : Result (List (Result TableInfo))) (columns : List ColumnInfo)
    (watch : Dict String (List ColumnInfo)) (e : ChangeLogEvent)
    → get_table_info rows ≡ ok columns
    → e.type ≡ "delete"
    → (pk : Row) × (get_primary_key_map (insert e.table_name columns watch) e ≡ some pk)
      × (pk ≢ [])
      × (replicate_row e pk ≡ ok (delete_from e.table_name pk))
unfolding get_table_info get_primary_key_map replicate_row
delete_is_keyed (err x) columns watch e h d = cc
delete_is_keyed (ok rows) columns watch e h d = (
  key_values columns e.row,
  grind entries,
  keyed-key_values columns e.row (read_rows-keyed rows false [] columns (unfold any_key in refl) h),
  rw d refl,
)
