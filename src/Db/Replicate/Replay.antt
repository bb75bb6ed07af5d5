-- ===== src/Db/Replicate/Replay.antt =====
-- Applying a sequence of events (db/change_log.go): what the rows are afterwards. The database's rows
-- are an interface with the documented meaning of the two statements.
pub mod Shards
pub mod Hashed
use harmonylite.Prelude.{
  Dict, ◌≐◌, lookup, String, ◌≡◌, refl, ap, ◌∙◌, Bool, true, false, ◌||◌, Option, none, some, List,
  [], ◌∷◌, if◌then◌else◌, Outcome, ok, err, string_eq, nat_eq,
}
use harmonylite.Db.Event.{Row, ColumnInfo, ChangeLogEvent}
use harmonylite.Db.Replicate.{
  Statement, upsert, delete_from, consume_replication_event, get_primary_key_map, key_values,
  replicate_row, names, values, in_tx, with_key,
}
use harmonylite.Prelude.Results.{invalid_operation}
use harmonylite.Db.Replicate.Applied.{healthy_io, key_of, key_values-key_of}

-- The rows of the watched tables, found by the values of their key. `is_one` says whether two keys
-- name one row. The laws are those of tables with no unique column outside their key, and of rows
-- that the tables accept.
pub record Rows (watch : Dict String (List ColumnInfo)) (S : Type 0) : Type 0 where
  pub find : String → Row → S → Option Row
  pub exec : Statement → S → S
  pub is_one : String → Row → String → Row → Bool
  pub find-upsert :
      (t u : String) (columns : List ColumnInfo) (r k : Row) (s : S)
      → lookup t watch ≡ some columns
      → find u k (exec (upsert t (names r) (values r)) s)
        ≡ (if is_one t (key_of columns r) u k then some r else find u k s)
  pub find-delete :
      (t u : String) (pk k : Row) (s : S)
      → find u k (exec (delete_from t pk) s) ≡ (if is_one t pk u k then none else find u k s)

module _ {watch : Dict String (List ColumnInfo)} {S : Type 0} (rows : Rows watch S) where
  pub exec_all : List Statement → S → S
  exec_all [] s = s
  exec_all (q ∷ qs) s = exec_all qs (rows.exec q s)

  -- The events in their order, each in a transaction that does not fail.
  unfoldable pub replay : List ChangeLogEvent → S → S
  unfolding exec_all
  replay [] s = s
  replay (e ∷ es) s = replay es (exec_all (consume_replication_event healthy_io watch e).1 s)

  -- The event is about the row.
  abbrev pub touches : String → Row → ChangeLogEvent → Bool
  touches u k e = elim (lookup e.table_name watch) [
    | none ↦ false
    | some columns ↦ rows.is_one e.table_name (key_of columns e.row) u k
  ]

  -- The row after an event about it: a deletion leaves none, an insertion or update the event's row.
  abbrev pub told : ChangeLogEvent → Option Row → Option Row
  told e v =
      if e.type ≐ "insert" || e.type ≐ "update"
      then some e.row
      else if e.type ≐ "delete"
      then none
      else v

  -- The row after events, of which only those about it count, in their order.
  unfoldable pub row_after : String → Row → List ChangeLogEvent → Option Row → Option Row
  row_after u k [] v = v
  row_after u k (e ∷ es) v = row_after u k es (if touches u k e then told e v else v)

  told_by :
      (u : String) (k : Row) (e : ChangeLogEvent) (columns : List ColumnInfo) (s : S)
      → lookup e.table_name watch ≡ some columns
      → rows.find u k (exec_all (with_key healthy_io e (some (key_values columns e.row))).1 s) ≡ (
          if rows.is_one e.table_name (key_of columns e.row) u k
          then told e (rows.find u k s)
          else rows.find u k s)
  unfolding with_key exec_all replicate_row in_tx
  told_by u k e columns s t = by_type (e.type ≐ "insert" || e.type ≐ "update") (e.type ≐ "delete")
    where
      one : Bool
      one = rows.is_one e.table_name (key_of columns e.row) u k

      same : (b : Bool) → rows.find u k s ≡ (if b then rows.find u k s else rows.find u k s)
      same true = refl
      same false = refl

      deleted :
          rows.find u k (rows.exec (delete_from e.table_name (key_values columns e.row)) s)
          ≡ (if one then none else rows.find u k s)
      deleted = rw key_values-key_of (rows.find-delete e.table_name u (key_of columns e.row) k s)

      by_type :
          (p q : Bool)
          → rows.find u k (
              exec_all
                (elim (if p
                    then ok (upsert e.table_name (names e.row) (values e.row))
                    else if q
                    then ok (delete_from e.table_name (key_values columns e.row))
                    else err invalid_operation)
                  as (λ _. Outcome × List Statement) [
                    | err x ↦ (err x, [])
                    | ok y ↦ in_tx healthy_io y
                  ]).1
                s)
            ≡ (if one
                then (if p then some e.row else if q then none else rows.find u k s)
                else rows.find u k s)
      by_type true q = rows.find-upsert e.table_name u columns e.row k s t
      by_type false true = deleted
      by_type false false = same one

  row-event :
      (u : String) (k : Row) (e : ChangeLogEvent) (s : S)
      → rows.find u k (exec_all (consume_replication_event healthy_io watch e).1 s)
        ≡ (if touches u k e then told e (rows.find u k s) else rows.find u k s)
  unfolding consume_replication_event get_primary_key_map
  row-event u k e s = by_table (lookup e.table_name watch) refl
    where
      by_table :
          (o : Option (List ColumnInfo))
          → lookup e.table_name watch ≡ o
          → rows.find u k (
              exec_all
                (with_key healthy_io e
                  (elim o [ none ↦ none | some columns ↦ some (key_values columns e.row) ])).1
                s)
            ≡ (if (elim o as (λ _. Bool) [
              | none ↦ false
              | some columns ↦ rows.is_one e.table_name (key_of columns e.row) u k
            ])
                then told e (rows.find u k s)
                else rows.find u k s)
      by_table none t = unfold with_key exec_all in refl
      by_table (some columns) t = told_by u k e columns s t

  -- On tables with no unique column outside their key, for rows that the tables accept, and where no
  -- transaction fails: after a replay of events, each row is what the events about it say, one after
  -- the other. An insertion or update makes it the event's row, a deletion removes it, and an event
  -- of another type, another key or a table that is not watched leaves it.
  pub row-replay :
      (es : List ChangeLogEvent) (s : S) (u : String) (k : Row)
      → rows.find u k (replay es s) ≡ row_after u k es (rows.find u k s)
  unfolding replay row_after
  row-replay [] s u k = refl
  row-replay (e ∷ es) s u k =
      row-replay es (exec_all (consume_replication_event healthy_io watch e).1 s) u k
      ∙ ap (row_after u k es) (row-event u k e s)
