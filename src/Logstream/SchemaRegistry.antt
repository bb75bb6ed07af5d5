-- ===== src/Logstream/SchemaRegistry.antt =====
-- logstream/schema_registry.go: each node's schema hash in a key-value bucket, and the check that
-- all nodes agree. The bucket and JSON are outside the repository, and are the parameters `Registry`
-- and `StateCodec`; the time and the version are arguments, and `show` is the decimal notation.
pub mod Consistency
pub mod Gathered
pub mod Published
pub mod Registered
use Prim.Native.String.{◌++◌ as ◌^^◌}
use harmonylite.Prelude.{
  length, All, Dict, ◌≐◌, insert, ℕ, String, ◌≡◌, ◌↔◌, Bool, true, false, List, [], ◌∷◌, leb,
  if◌then◌else◌, Err, Result, Outcome, ok, err, string_eq, nat_eq, ◌>>=◌, ◌>>◌,
}
use harmonylite.Prelude.Results.{registry_missing}

pub record NodeSchemaState : Type 0 where
  pub node_id : ℕ
  pub schema_hash : String
  pub previous_hash : String
  pub harmony_lite_version : String
  -- In nanoseconds.
  pub updated_at : ℕ

pub record SchemaMismatch : Type 0 where
  pub node_id : ℕ
  pub expected_hash : String
  pub actual_hash : String

pub record SchemaConsistencyReport : Type 0 where
  pub node_count : ℕ
  pub consistent : Bool
  pub mismatches : List SchemaMismatch

-- What `Keys` returns, `ErrNoKeysFound` apart.
pub data Keys : Type 0 where
  keys : List String → Keys
  no_keys_found : Keys
  failed : Err → Keys

abbrev pub listed : Keys → List String
listed (keys ks) = ks
listed _ = []

-- The bucket, as NATS documents it: what was put is found, and `Keys` lists it, as long as `IsLive`
-- holds: no entry is as old as the bucket's TTL of five minutes, after which NATS drops it.
pub record Registry (S : Type 0) : Type 1 where
  pub keys_of : S → Keys
  pub get : String → S → Result (List ℕ)
  pub put : String → List ℕ → S → Outcome × S
  pub IsLive : S → Type 0
  pub IsLive-put : (k : String) (v : List ℕ) (s : S) → IsLive (put k v s).1 → IsLive s
  pub get-put :
      (k j : String) (v : List ℕ) (s : S)
      → IsLive (put k v s).1
      → (put k v s).0 ≡ ok tt
      → get j (put k v s).1 ≡ (if k ≐ j then ok v else get j s)
  pub keys_of-put :
      (k : String) (v : List ℕ) (s : S)
      → IsLive (put k v s).1
      → (put k v s).0 ≡ ok tt
      → (ks : List String) × (keys_of (put k v s).1 ≡ keys ks)
        × ((Q : String → Type 0) → All Q ks ↔ (Q k × All Q (listed (keys_of s))))

pub record StateCodec : Type 0 where
  pub marshal : NodeSchemaState → Result (List ℕ)
  pub unmarshal : List ℕ → Result NodeSchemaState
  pub unmarshal-marshal :
      (state : NodeSchemaState) (bytes : List ℕ)
      → marshal state ≡ ok bytes
      → unmarshal bytes ≡ ok state

-- `fmt.Sprintf("node-%d", nodeID)`
unfoldable pub node_key : (ℕ → String) → ℕ → String
node_key show n = "node-" ^^ show n

module _ {S : Type 0} (registry : Registry S) (codec : StateCodec) (show : ℕ → String) where
  unfoldable pub put_state : NodeSchemaState → S → Result (List ℕ) → Outcome × S
  put_state state s (err e) = (err e, s)
  put_state state s (ok bytes) = registry.put (node_key show state.node_id) bytes s

  -- `PublishSchemaState` of the node whose state this is.
  unfoldable pub publish_schema_state : NodeSchemaState → S → Outcome × S
  unfolding put_state
  publish_schema_state state s = put_state state s (codec.marshal state)

  -- `Get` and `Unmarshal` at a key.
  unfoldable pub entry_at : S → String → Result NodeSchemaState
  entry_at s k = do bytes ← registry.get k s; codec.unmarshal bytes

  unfoldable pub get_node_schema_state : ℕ → S → Result NodeSchemaState
  unfolding entry_at
  get_node_schema_state n s = entry_at s (node_key show n)

-- A key that cannot be read or decoded is passed over; a later entry of a node replaces the
-- earlier one.
pub gather :
    (String → Result NodeSchemaState)
    → List String
    → Dict ℕ NodeSchemaState
    → Dict ℕ NodeSchemaState
gather entry [] states = states
gather entry (k ∷ ks) states = elim (entry k) [
  | err _ ↦ gather entry ks states
  | ok state ↦ gather entry ks (insert state.node_id state states)
]

unfoldable pub get_cluster_schema_state :
    Keys → (String → Result NodeSchemaState) → Result (Dict ℕ NodeSchemaState)
unfolding gather
get_cluster_schema_state (keys ks) entry = ok (gather entry ks [])
get_cluster_schema_state no_keys_found entry = ok []
get_cluster_schema_state (failed e) entry = err e

pub reference_hash : List (ℕ × NodeSchemaState) → String
reference_hash [] = ""
reference_hash ((_, state) ∷ _) = state.schema_hash

pub mismatches_of : String → List (ℕ × NodeSchemaState) → List SchemaMismatch
mismatches_of h [] = []
mismatches_of h ((n, state) ∷ rest) =
    let found = mismatches_of h rest in
    if state.schema_hash ≐ h
    then found
    else record { node_id = n; expected_hash = h; actual_hash = state.schema_hash } ∷ found

pub is_empty : List SchemaMismatch → Bool
is_empty [] = true
is_empty (_ ∷ _) = false

-- The code ranges over the map twice, and Go may visit it in another order each time: `reorder` is
-- the order of the first range.
unfoldable pub report :
    (List (ℕ × NodeSchemaState) → List (ℕ × NodeSchemaState))
    → Dict ℕ NodeSchemaState
    → SchemaConsistencyReport
unfolding reference_hash mismatches_of is_empty
report reorder states =
    if leb (length states) 1
    then record { node_count = length states; consistent = true; mismatches = [] }
    else (let found = mismatches_of (reference_hash (reorder states)) states in
        record { node_count = length states; consistent = is_empty found; mismatches = found })

unfoldable pub check_cluster_schema_consistency :
    (List (ℕ × NodeSchemaState) → List (ℕ × NodeSchemaState))
    → Keys
    → (String → Result NodeSchemaState)
    → Result SchemaConsistencyReport
unfolding get_cluster_schema_state report
check_cluster_schema_consistency reorder ks entry = do
  states ← get_cluster_schema_state ks entry
  ok (report reorder states)
