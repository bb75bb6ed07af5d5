-- ===== src/Node/Status.antt =====
-- The two reports of harmonylite.go on schemas: `printLocalSchemaStatus` and
-- `printClusterSchemaStatus`, as the lines that they print. What the database lists and what the
-- registry answers are arguments.
pub mod Groups
pub mod Uninitialized
use Prim.Native.String.{String as Text}
use harmonylite.Prelude.{
  length, Dict, ◌≐◌, lookup, insert, ℕ, zero, suc, String, Bool, none, some, List, [], ◌∷◌, ◌++◌,
  map, if◌then◌else◌, Err, Result, ok, err, string_eq, nat_eq,
}
use harmonylite.Db.SchemaCache.{SchemaCache}
use harmonylite.Db.Sqlite.Install.{Installation}
use harmonylite.Logstream.SchemaRegistry.{NodeSchemaState, SchemaMismatch, SchemaConsistencyReport}

pub data Line : Type 0 where
  title uninitialized watched_tables no_state_available groups_title details_title : Line
  mismatches_title : Line
  hash_line : String → Line
  node_line : ℕ → Line
  version_line : String → Line
  table_line : String → Line
  error_line : Err → Line
  total_nodes : ℕ → Line
  consistent_line : Bool → Line
  group_line : String → List ℕ → Line
  detail_lines : ℕ → String → String → ℕ → Line
  mismatch_line : ℕ → String → String → Line

-- `GetSchemaHash` of db/sqlite.go.
unfoldable pub get_schema_hash : Installation → String
get_schema_hash db = elim db.schema_cache [ none ↦ "" | some c ↦ c.schema_hash ]

unfoldable pub print_local_schema_status :
    ℕ → String → Result (List String) → Installation → List Line
unfolding get_schema_hash
print_local_schema_status node_id version tables db =
    let h = get_schema_hash db in
    let rest : List Line = elim tables [
      | err e ↦ error_line e ∷ []
      | ok names ↦ watched_tables ∷ map table_line names
    ] in
    if h ≐ ""
    then title ∷ uninitialized ∷ []
    else title ∷ hash_line h ∷ node_line node_id ∷ version_line version ∷ rest

-- `hash[:16]`, of a text that is longer.
unfoldable pub preview : ℕ → String → String
preview zero h = String.[]
preview (suc n) String.[] = String.[]
preview (suc n) (String.◌∷◌ c h) = String.◌∷◌ c (preview n h)

-- The nodes by their hash.
unfoldable pub group_nodes :
    List (ℕ × NodeSchemaState) → Dict String (List ℕ) → Dict String (List ℕ)
group_nodes [] groups = groups
group_nodes ((n, state) ∷ rest) groups =
    let members : List ℕ = elim (lookup state.schema_hash groups) [ none ↦ [] | some ns ↦ ns ] in
    group_nodes rest (insert state.schema_hash (members ++ n ∷ []) groups)

abbrev pub hash_groups : List (ℕ × NodeSchemaState) → Dict String (List ℕ)
hash_groups states = group_nodes states []

pub print_details : List (ℕ × NodeSchemaState) → List Line
print_details [] = []
print_details ((n, state) ∷ rest) =
    detail_lines n state.schema_hash state.harmony_lite_version state.updated_at
    ∷ print_details rest

abbrev mismatch_of : SchemaMismatch → Line
mismatch_of m = mismatch_line m.node_id (preview 16 m.expected_hash) (preview 16 m.actual_hash)

pub print_mismatches : SchemaConsistencyReport → List Line
unfolding preview
print_mismatches r = if r.consistent then [] else mismatches_title ∷ map mismatch_of r.mismatches

-- The code asks the registry twice, and ranges over the map twice and over the groups once, each in
-- some order.
unfoldable pub print_cluster_schema_status :
    (List (ℕ × NodeSchemaState) → List (ℕ × NodeSchemaState))
    → (List (ℕ × NodeSchemaState) → List (ℕ × NodeSchemaState))
    → (Dict String (List ℕ) → Dict String (List ℕ))
    → Result (Dict ℕ NodeSchemaState)
    → Result SchemaConsistencyReport
    → List Line
unfolding group_nodes print_details print_mismatches preview
print_cluster_schema_status grouping detailing listing (err e) checked = title ∷ error_line e ∷ []
print_cluster_schema_status grouping detailing listing (ok []) checked =
    title ∷ no_state_available ∷ []
print_cluster_schema_status grouping detailing listing (ok (x ∷ states)) (err e) =
    title ∷ total_nodes (length (x ∷ states)) ∷ error_line e ∷ []
print_cluster_schema_status grouping detailing listing (ok (x ∷ states)) (ok r) =
    title
    ∷ total_nodes (length (x ∷ states))
    ∷ consistent_line r.consistent
    ∷ groups_title
    ∷ (map (λ (g : String × List ℕ). group_line (preview 16 g.0) g.1)
          (listing (hash_groups (grouping (x ∷ states))))
        ++ (details_title ∷ (print_details (detailing (x ∷ states)) ++ print_mismatches r)))
