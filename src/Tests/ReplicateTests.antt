-- ===== src/Tests/ReplicateTests.antt =====
-- The theorems on applying an event at concrete inputs.
use harmonylite.Prelude.{
  keep, Dict, ◌≐◌, lookup, ℕ, String, ◌≡◌, refl, sym, ◌∙◌, ◌↔◌, Bool, true, false, ◌&&◌, Option,
  none, some, List, [], ◌∷◌, arith, eq_iff, ◌==◌, if◌then◌else◌, ==_iff, Result, ok, string_eq,
  nat_eq,
}
use harmonylite.Db.Event.{ColumnInfo, ChangeLogEvent, int, null, Row, Value}
use harmonylite.Db.Replicate.{
  consume_replication_event, Statement, upsert, delete_from, names, values,
}
use harmonylite.Db.Replicate.Replay.{Rows, replay, row_after, row-replay}
use harmonylite.Db.Replicate.Replay.Hashed.{shard_of, shards_converge}
use harmonylite.Db.Event.Hashing.{hash, get_sorted_pk_columns}
use harmonylite.Db.Event.Hashing.Agree.{col_name}
use harmonylite.Prelude.Sort.{sort_by, Reordered, Reordered-refl}
use harmonylite.Db.Replicate.Applied.{
  Applied, IsApplicable, key_of, consume-Applied, healthy_io, zip, zip-names,
}

abbrev watch : Dict String (List ColumnInfo)
watch =
    (
      "books",
      (record {
        name = "id";
        type = "INTEGER";
        not_null = true;
        default_value = null;
        primary_key_index = 1;
        is_primary_key = true;
      })
          ∷ (record {
            name = "pages";
            type = "INTEGER";
            not_null = false;
            default_value = null;
            primary_key_index = 0;
            is_primary_key = false;
          })
          ∷ [],
    )
    ∷ []

abbrev deletion : ChangeLogEvent
deletion = record {
  id = 1;
  type = "delete";
  table_name = "books";
  row = ("id", int 3) ∷ ("pages", int 90) ∷ [];
  schema_hash = "";
  table_info = [];
}

consume-Applied_example :
    Applied watch deletion (consume_replication_event healthy_io watch deletion)
    × (((consume_replication_event healthy_io watch deletion).0 ≡ ok tt)
        ↔ IsApplicable watch deletion)
consume-Applied_example = consume-Applied healthy_io watch deletion

-- Rows as a function of the table and the key, with whole numbers as keys.
abbrev Table : Type 0
Table = String → Row → Option Row

is_one : String → Row → String → Row → Bool
is_one t ((a, int n) ∷ []) u ((b, int m) ∷ []) = t ≐ u && a ≐ b && n == m
is_one t k u l = false

columns_of : String → List ColumnInfo
columns_of t = elim (lookup t watch) [ none ↦ [] | some columns ↦ columns ]

run : Statement → Table → Table
run (upsert t ks vs) s u k =
    if is_one t (key_of (columns_of t) (zip ks vs)) u k then some (zip ks vs) else s u k
run (delete_from t pk) s u k = if is_one t pk u k then none else s u k

columns_found :
    (t : String) (columns : List ColumnInfo)
    → lookup t watch ≡ some columns
    → columns_of t ≡ columns
unfolding columns_of
columns_found t columns h = ground arith

run-upsert :
    (t u : String) (columns : List ColumnInfo) (r k : Row) (s : Table)
    → lookup t watch ≡ some columns
    → run (upsert t (names r) (values r)) s u k
      ≡ (if is_one t (key_of columns r) u k then some r else s u k)
unfolding run
run-upsert t u columns r k s h = rw (zip-names, columns_found t columns h) refl

run-delete :
    (t u : String) (pk k : Row) (s : Table)
    → run (delete_from t pk) s u k ≡ (if is_one t pk u k then none else s u k)
unfolding run
run-delete t u pk k s = refl

abbrev toy_rows : Rows watch Table
toy_rows = record {
  find = λ u k s. s u k;
  exec = run;
  is_one = is_one;
  find-upsert = run-upsert;
  find-delete = run-delete;
}

abbrev insertion : ℕ → ChangeLogEvent
insertion pages = record deletion {
  type = "insert";
  row = ("id", int 3) ∷ ("pages", int pages) ∷ [];
}

abbrev change : ℕ → ChangeLogEvent
change pages = record (insertion pages) { type = "update" }

-- The rows before: none.
abbrev no_rows : Table
no_rows u k = none

abbrev key : Row
key = ("id", int 3) ∷ []

row-replay_example :
    replay toy_rows (insertion 90 ∷ deletion ∷ change 91 ∷ []) no_rows "books" key
    ≡ row_after toy_rows "books" key (insertion 90 ∷ deletion ∷ change 91 ∷ []) none
row-replay_example =
    row-replay toy_rows (insertion 90 ∷ deletion ∷ change 91 ∷ []) no_rows "books" key

last_row :
    row_after toy_rows "books" key (insertion 90 ∷ deletion ∷ change 91 ∷ []) none
    ≡ some (("id", int 3) ∷ ("pages", int 91) ∷ [])
unfolding row_after key_of keep lookup is_one
last_row = refl

all_true : (x y z : Bool) → (x && y && z) ≡ true → (x ≡ true) × ((y ≡ true) × (z ≡ true))
all_true true true true h = (refl, (refl, refl))
all_true true true false h = cc
all_true true false z h = cc
all_true false y z h = cc

is_one-exact : (t u : String) (p k : Row) → is_one t p u k ≡ true → (t ≡ u) × (p ≡ k)
unfolding is_one
is_one-exact t u ((a, int n) ∷ []) ((b, int m) ∷ []) h =
    let (x, (y, z)) = all_true (t ≐ u) (a ≐ b) (n == m) h in
    ((eq_iff t u).0 x, rw ((eq_iff a b).0 y, (==_iff n m).0 z) refl)
is_one-exact t u p k h = cc

two_keys :
    (t t' u : String) (p q k : Row)
    → is_one t p u k ≡ true
    → is_one t' q u k ≡ true
    → (t ≡ t') × (p ≡ q)
two_keys t t' u p q k h h' =
    let (a, b) = is_one-exact t u p k h in
    let (c, d) = is_one-exact t' u q k h' in (a ∙ sym c, b ∙ sym d)

-- The hash is the number of the key.
abbrev by_number : String → List (String × Value) → Result ℕ
by_number t ((a, int n) ∷ []) = ok n
by_number t ps = ok 0

abbrev sender : ChangeLogEvent → List ColumnInfo
sender e = columns_of e.table_name

abbrev shard : ChangeLogEvent → ℕ
shard e = shard_of by_number 2 (sender e) e

listed_alike :
    (e : ChangeLogEvent) (columns : List ColumnInfo)
    → lookup e.table_name watch ≡ some columns
    → Reordered col_name columns (sender e)
listed_alike e columns h =
    rw (columns_found e.table_name columns h) (Reordered-refl col_name columns)

abbrev other_book : ChangeLogEvent
other_book = record deletion { type = "insert"; row = ("id", int 4) ∷ ("pages", int 12) ∷ [] }

abbrev one_order : List ChangeLogEvent
one_order = insertion 90 ∷ other_book ∷ deletion ∷ []

abbrev other_order : List ChangeLogEvent
other_order = insertion 90 ∷ deletion ∷ other_book ∷ []

shard-deletion : shard deletion ≡ 2
unfolding columns_of hash get_sorted_pk_columns sort_by lookup
shard-deletion = refl

shard-insertion : shard (insertion 90) ≡ 2
unfolding columns_of hash get_sorted_pk_columns sort_by lookup
shard-insertion = refl

shard-other_book : shard other_book ≡ 1
unfolding columns_of hash get_sorted_pk_columns sort_by lookup
shard-other_book = refl

same_shards : (i : ℕ) → keep (λ e. shard e == i) one_order ≡ keep (λ e. shard e == i) other_order
unfolding keep
same_shards i = rw (shard-insertion, shard-deletion, shard-other_book) (ground arith)

shards_converge_example :
    replay toy_rows one_order no_rows "books" key ≡ replay toy_rows other_order no_rows "books" key
shards_converge_example =
    shards_converge toy_rows by_number 2 sender one_order other_order no_rows no_rows two_keys
      listed_alike same_shards (λ u k. refl) "books" key
