-- ===== src/Db/Event/Hashing.antt =====
-- db/change_log_event.go: `Hash` and `getSortedPKColumns`. The global cache of key columns is passed
-- along. The FNV hash over the CBOR encoder is outside the repository: it is the parameter `Hasher`,
-- a function of the table's name and of the pairs that are encoded.
pub mod Agree
use harmonylite.Prelude.{
  Dict, lookup, insert, ℕ, String, Option, none, some, List, [], ◌∷◌, if◌then◌else◌, Result,
  string_eq, nat_eq,
}
use harmonylite.Db.Event.{Value, ColumnInfo, ChangeLogEvent, Row, null}
use harmonylite.Prelude.Sort.{sort_by}

abbrev pub Hasher : Type 0
Hasher = String → List (String × Value) → Result ℕ

abbrev pub Cache : Type 0
Cache = Dict String (List String)

-- The names of the key columns, in the order of the table.
unfoldable pub pk_names : List ColumnInfo → List String
pk_names [] = []
pk_names (c ∷ cs) = let rest = pk_names cs in if c.is_primary_key then c.name ∷ rest else rest

unfoldable pub get_sorted_pk_columns : Cache → ChangeLogEvent → List String × Cache
unfolding pk_names
get_sorted_pk_columns cache e = elim (lookup e.table_name cache) [
  | some values ↦ (values, cache)
  | none ↦
      let pk_columns = sort_by (λ s. s) (pk_names e.table_info) in
      (pk_columns, insert e.table_name pk_columns cache)
]

-- `m[k]` of a `map[string]any`: nil where the key is missing.
abbrev pub or_null : Option Value → Value
or_null none = null
or_null (some v) = v

pub pairs : Row → List String → List (String × Value)
pairs row [] = []
pairs row (pk ∷ pks) = (pk, or_null (lookup pk row)) ∷ pairs row pks

unfoldable pub hash : Hasher → Cache → ChangeLogEvent → Result ℕ × Cache
unfolding pairs
hash h cache e =
    let (pk_columns, cache') = get_sorted_pk_columns cache e in
    (h e.table_name (pairs e.row pk_columns), cache')
