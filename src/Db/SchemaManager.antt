-- ===== src/Db/SchemaManager.antt =====
-- db/schema_manager.go: the hash of the watched tables' schema. Atlas, which inspects the database,
-- and SHA-256 are outside the repository: what the inspection returns is an argument, and `digest`
-- is the hex digest of what was written to the hash.
pub mod Determined
use Prim.Native.String.{◌++◌ as ◌^^◌, ◌∷◌ as cons_char}
use harmonylite.Prelude.{
  keep, ◌≐◌, String, Bool, true, false, not, ◌||◌, Option, none, some, List, [], ◌∷◌, if◌then◌else◌,
  Result, ok, err, string_eq, nat_eq, ◌>>=◌, ◌>>◌,
}
use harmonylite.Prelude.Sort.{sort_by}

-- `raw` is the type as it was declared, and `type_name` the Go type of Atlas for it, `%T`.
pub record Column : Type 0 where
  pub name : String
  pub raw : String
  pub type_name : Option String
  pub null : Bool

-- A part of a primary key is a column, or an expression, for which the column is nil.
pub record Table : Type 0 where
  pub name : String
  pub columns : List Column
  pub primary_key : Option (List (Option String))

-- The schemas of a realm, each with its tables.
abbrev pub Realm : Type 0
Realm = List (List Table)

pub contains : String → List String → Bool
contains s [] = false
contains s (t ∷ ts) = t ≐ s || contains s ts

unfoldable pub inspect_tables : Result Realm → List String → Result (List Table)
unfolding contains
inspect_tables (err e) tables = err e
inspect_tables (ok []) tables = ok []
inspect_tables (ok (schema ∷ _)) tables = ok (keep (λ t. contains t.name tables) schema)

pub has_part : String → List (Option String) → Bool
has_part name [] = false
has_part name (none ∷ parts) = has_part name parts
has_part name (some c ∷ parts) = c ≐ name || has_part name parts

pub is_pk : Option (List (Option String)) → String → Bool
unfolding has_part
is_pk none name = false
is_pk (some parts) name = has_part name parts

type_str : Column → String
type_str c = if c.raw ≐ "" then (elim c.type_name [ none ↦ "" | some n ↦ n ]) else c.raw

show_bool : Bool → String
show_bool true = "true"
show_bool false = "false"

-- `|name:type:notnull:pk`
column_text : Option (List (Option String)) → Column → String
unfolding type_str show_bool is_pk
column_text pk c =
    "|"
    ^^ c.name
    ^^ ":"
    ^^ type_str c
    ^^ ":"
    ^^ show_bool (not c.null)
    ^^ ":"
    ^^ show_bool (is_pk pk c.name)

columns_text : Option (List (Option String)) → List Column → String
unfolding column_text
columns_text pk [] = ""
columns_text pk (c ∷ cs) = column_text pk c ^^ columns_text pk cs

-- What `hashTable` writes.
pub hash_table : Table → String
unfolding columns_text
hash_table t = t.name ^^ columns_text t.primary_key (sort_by (λ c. c.name) t.columns) ^^ "\n"

pub tables_text : List Table → String
unfolding hash_table
tables_text [] = ""
tables_text (t ∷ ts) = hash_table t ^^ tables_text ts

unfoldable pub compute_schema_hash : (String → String) → Result Realm → List String → Result String
unfolding inspect_tables tables_text
compute_schema_hash digest realm tables = do
  inspected ← inspect_tables realm tables
  ok (digest (tables_text (sort_by (λ t. t.name) inspected)))
