-- ===== src/Db/Replicate/Applied.antt =====
-- What applying an event commits (db/change_log.go).
use harmonylite.Prelude.{
  keep, tests, Dict, lookup, String, ◌≡◌, refl, ap, ◌↔◌, ◌⊎◌, inl, inr, Option, none, some, List,
  [], ◌∷◌, map, arith, Result, Outcome, ok, err, string_eq, nat_eq,
}
use harmonylite.Db.Event.{Row, Value, ColumnInfo, ChangeLogEvent}
use harmonylite.Db.Event.Hashing.{or_null}
use harmonylite.Db.Replicate.{
  Statement, upsert, delete_from, TxIo, consume_replication_event, get_primary_key_map, key_values,
  replicate_row, names, values, in_tx, with_key,
}

-- Columns with their arguments.
abbrev pub zip : List String → List Value → Row
zip (k ∷ ks) (v ∷ vs) = (k, v) ∷ zip ks vs
zip _ _ = []

pub zip-names : (row : Row) → zip (names row) (values row) ≡ row
unfolding names values
zip-names [] = refl
zip-names ((k, v) ∷ row) = ap (λ r. (k, v) ∷ r) (zip-names row)

-- The values of a row at the columns of the key, in the columns' order.
unfoldable pub key_of : List ColumnInfo → Row → Row
key_of columns row =
    map (λ c. (c.name, or_null (lookup c.name row))) (keep (λ c. c.is_primary_key) columns)

pub key_values-key_of :
    (columns : List ColumnInfo) (row : Row) → key_values columns row ≡ key_of columns row
unfolding key_values keep key_of
key_values-key_of [] row = refl
key_values-key_of (c ∷ cs) row = ground (arith, key_values-key_of cs row)

-- The type names one of the three operations.
abbrev pub IsOperation : String → Type 0
IsOperation t = (t ≡ "insert") ⊎ (t ≡ "update") ⊎ (t ≡ "delete")

-- The statement does what the event says, on a table with these columns: an insert or update sets
-- each column to the event's value, and a delete names the key's columns with the event's values.
abbrev pub PerformsBy : List ColumnInfo → ChangeLogEvent → Statement → Type 0
PerformsBy columns e (upsert t ks vs) =
    ((e.type ≡ "insert") ⊎ (e.type ≡ "update")) × (t ≡ e.table_name) × (zip ks vs ≡ e.row)
PerformsBy columns e (delete_from t pk) =
    (e.type ≡ "delete") × (t ≡ e.table_name) × (pk ≡ key_of columns e.row)

abbrev pub Performs : Dict String (List ColumnInfo) → ChangeLogEvent → Statement → Type 0
Performs watch e s =
    (columns : List ColumnInfo) × (lookup e.table_name watch ≡ some columns)
    × PerformsBy columns e s

abbrev pub Applied :
    Dict String (List ColumnInfo) → ChangeLogEvent → Outcome × List Statement → Type 0
Applied watch e (err x, done) = done ≡ []
Applied watch e (ok u, done) = (s : Statement) × (done ≡ s ∷ []) × Performs watch e s

row-PerformsBy :
    (columns : List ColumnInfo) (e : ChangeLogEvent) (s : Statement)
    → replicate_row e (key_values columns e.row) ≡ ok s
    → PerformsBy columns e s
unfolding replicate_row
row-PerformsBy columns e (upsert t ks vs) h = grind (tests, zip-names e.row)
row-PerformsBy columns e (delete_from t r) h = grind (tests, key_values-key_of columns e.row)

tx-Applied :
    (io : TxIo) (watch : Dict String (List ColumnInfo)) (e : ChangeLogEvent) (s : Statement)
    → Performs watch e s
    → Applied watch e (in_tx io s)
unfolding in_tx
tx-Applied io watch e s p = by_exec (io.exec s) io.commit
  where
    by_exec :
        (x y : Outcome)
        → Applied watch e (elim x [
          | err z ↦ (err z, [])
          | ok _ ↦ elim y [ err z ↦ (err z, []) | ok _ ↦ (ok tt, s ∷ []) ]
        ])
    by_exec (err z) y = refl
    by_exec (ok u) (err z) = refl
    by_exec (ok u) (ok v) = (s, refl, p)

row-Applied :
    (io : TxIo) (watch : Dict String (List ColumnInfo)) (e : ChangeLogEvent)
    (columns : List ColumnInfo)
    → lookup e.table_name watch ≡ some columns
    → Applied watch e (with_key io e (some (key_values columns e.row)))
unfolding with_key
row-Applied io watch e columns m = by_statement (replicate_row e (key_values columns e.row)) refl
  where
    by_statement :
        (r : Result Statement)
        → replicate_row e (key_values columns e.row) ≡ r
        → Applied watch e (elim r [ err x ↦ (err x, []) | ok s ↦ in_tx io s ])
    by_statement (err x) h = refl
    by_statement (ok s) h = tx-Applied io watch e s (columns, m, row-PerformsBy columns e s h)

key-Applied :
    (io : TxIo) (watch : Dict String (List ColumnInfo)) (e : ChangeLogEvent)
    (o : Option (List ColumnInfo))
    → lookup e.table_name watch ≡ o
    → Applied watch e
        (with_key io e (elim o [ none ↦ none | some columns ↦ some (key_values columns e.row) ]))
key-Applied io watch e none m = unfold with_key in refl
key-Applied io watch e (some columns) m = row-Applied io watch e columns m

-- An event either fails and commits nothing, or commits the one statement that does what it says.
pub consume_commits :
    (io : TxIo) (watch : Dict String (List ColumnInfo)) (e : ChangeLogEvent)
    → Applied watch e (consume_replication_event io watch e)
unfolding consume_replication_event get_primary_key_map
consume_commits io watch e = by_begin io.borrow io.begin
  where
    by_begin :
        (x y : Outcome)
        → Applied watch e (elim x [
          | err z ↦ (err z, [])
          | ok _ ↦ elim y [
            | err z ↦ (err z, [])
            | ok _ ↦ with_key io e (get_primary_key_map watch e)
          ]
        ])
    by_begin (err z) y = refl
    by_begin (ok u) (err z) = refl
    by_begin (ok u) (ok v) = key-Applied io watch e (lookup e.table_name watch) refl

-- Nothing outside fails.
abbrev pub healthy_io : TxIo
healthy_io = record { borrow = ok tt; begin = ok tt; exec = λ s. ok tt; commit = ok tt }

-- An event of one of the three operations on a watched table is applied, if nothing outside fails.
pub consume_succeeds :
    (watch : Dict String (List ColumnInfo)) (e : ChangeLogEvent) (columns : List ColumnInfo)
    → lookup e.table_name watch ≡ some columns
    → IsOperation e.type
    → (consume_replication_event healthy_io watch e).0 ≡ ok tt
unfolding consume_replication_event with_key get_primary_key_map replicate_row in_tx
consume_succeeds watch e columns h k = grind tests

performed-IsOperation :
    (columns : List ColumnInfo) (e : ChangeLogEvent) (s : Statement)
    → PerformsBy columns e s
    → IsOperation e.type
performed-IsOperation columns e (upsert t ks vs) (inl a, _, _) = inl a
performed-IsOperation columns e (upsert t ks vs) (inr b, _, _) = inr (inl b)
performed-IsOperation columns e (delete_from t pk) (a, _, _) = inr (inr a)

-- The table of the event is watched, and its type is one of the three operations.
abbrev pub IsApplicable : Dict String (List ColumnInfo) → ChangeLogEvent → Type 0
IsApplicable watch e =
    ((columns : List ColumnInfo) × (lookup e.table_name watch ≡ some columns)) × IsOperation e.type

-- Applying an event either fails and commits nothing, or commits the one statement that does what
-- the event says, whatever fails outside; and where nothing outside fails, it succeeds exactly for
-- an insert, an update or a delete on a watched table.
pub consume-Applied :
    (io : TxIo) (watch : Dict String (List ColumnInfo)) (e : ChangeLogEvent)
    → Applied watch e (consume_replication_event io watch e)
      × (((consume_replication_event healthy_io watch e).0 ≡ ok tt) ↔ IsApplicable watch e)
consume-Applied io watch e = (
  consume_commits io watch e,
  (
    by_result (consume_replication_event healthy_io watch e) (consume_commits healthy_io watch e),
    λ ((columns, h), k). consume_succeeds watch e columns h k,
  ),
)
  where
    by_result :
        (r : Outcome × List Statement) → Applied watch e r → r.0 ≡ ok tt → IsApplicable watch e
    by_result (err x, done) a h = cc
    by_result (ok u, done) (s, _, (columns, m, p)) h =
        ((columns, m), performed-IsOperation columns e s p)
