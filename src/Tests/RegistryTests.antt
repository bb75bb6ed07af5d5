-- ===== src/Tests/RegistryTests.antt =====
-- Nodes that publish their schema hashes to a registry that is a map.
use harmonylite.Prelude.{
  All, Dict, ◌≐◌, lookup-insert, lookup, insert, ℕ, String, ◌≡◌, refl, ◌↔◌, inl, inr, true, ◌&&◌,
  none, some, List, [], ◌∷◌, map, arith, eq_iff, ◌==◌, if◌then◌else◌, Bool-cases, Result,
  invalid_operation, key_not_found, ok, err, string_eq, nat_eq,
}
use harmonylite.Logstream.SchemaRegistry.{
  Registry, StateCodec, Keys, keys, no_keys_found, listed, NodeSchemaState, SchemaConsistencyReport,
  publish_schema_state, entry_at, check_cluster_schema_consistency, node_key, put_state,
}
use harmonylite.Logstream.SchemaRegistry.Published.{published_consistent_iff}
use harmonylite.Logstream.SchemaRegistry.Registered.{publish_all}

abbrev Entries : Type 0
Entries = Dict String (List ℕ)

abbrev keys_in : Entries → Keys
keys_in [] = no_keys_found
keys_in (x ∷ m) = keys (map (λ (y : String × List ℕ). y.0) (x ∷ m))

put_entry : String → List ℕ → Entries → Entries
unfolding insert
put_entry k v m = insert k v m

names : Entries → List String
names m = map (λ (y : String × List ℕ). y.0) m

listed-keys_in : (m : Entries) → listed (keys_in m) ≡ names m
unfolding names
listed-keys_in [] = refl
listed-keys_in (x ∷ m) = refl

names-insert :
    (k : String) (v : List ℕ) (m : Entries) (Q : String → Type 0)
    → All Q (names (insert k v m)) ↔ (Q k × All Q (names m))
unfolding names insert
names-insert k v [] Q = ((λ a. a), (λ a. a))
names-insert k v ((j, w) ∷ m) Q = elim (Bool-cases (j ≐ k)) [
  | inl e ↦ let same : j ≡ k = (eq_iff j k).0 e in rw (e, same) ((λ a. (a.0, a)), (λ a. a.1))
  | inr e ↦
      let (to, from) = names-insert k v m Q in
      rw e ((λ (q, a). let (h, t) = to a in (h, (q, t))), (λ (h, (q, t)). (q, from (h, t))))
]

keys_in-insert :
    (k : String) (v : List ℕ) (m : Entries)
    → (ks : List String) × (keys_in (insert k v m) ≡ keys ks) × (ks ≡ names (insert k v m))
unfolding names insert
keys_in-insert k v [] = (k ∷ [], refl, refl)
keys_in-insert k v ((j, w) ∷ m) = elim (Bool-cases (j ≐ k)) [
  | inl e ↦ rw e (_, refl, refl)
  | inr e ↦ rw e (_, refl, refl)
]

abbrev get_entry : String → Entries → Result (List ℕ)
get_entry k m = elim (lookup k m) [ none ↦ err key_not_found | some v ↦ ok v ]

get_entry-insert :
    (k j : String) (v : List ℕ) (m : Entries)
    → get_entry j (insert k v m) ≡ (if k ≐ j then ok v else get_entry j m)
get_entry-insert k j v m = ground (arith, lookup-insert k j v m)

keys_of-insert :
    (k : String) (v : List ℕ) (m : Entries)
    → (ks : List String) × (keys_in (insert k v m) ≡ keys ks)
      × ((Q : String → Type 0) → All Q ks ↔ (Q k × All Q (listed (keys_in m))))
keys_of-insert k v m =
    let (ks, e, q) = keys_in-insert k v m in
    (ks, e, (λ Q. rw (q, listed-keys_in m) (names-insert k v m Q)))

abbrev map_registry : Registry Entries
map_registry = record {
  keys_of = keys_in;
  get = get_entry;
  put = λ k v m. (ok tt, insert k v m);
  IsLive = λ m. Unit;
  IsLive-put = λ k v m l. tt;
  get-put = λ k j v m l h. get_entry-insert k j v m;
  keys_of-put = λ k v m l h. keys_of-insert k v m;
}

abbrev state_of : ℕ → String → NodeSchemaState
state_of n h = record {
  node_id = n;
  schema_hash = h;
  previous_hash = "";
  harmony_lite_version = "";
  updated_at = 0;
}

-- The codec knows two hashes.
abbrev encode_state : NodeSchemaState → Result (List ℕ)
encode_state s =
    if s.previous_hash ≐ "" && (s.harmony_lite_version ≐ "" && s.updated_at ≐ 0)
    then (if s.schema_hash ≐ "a"
        then ok (s.node_id ∷ 0 ∷ [])
        else if s.schema_hash ≐ "b"
        then ok (s.node_id ∷ 1 ∷ [])
        else err invalid_operation)
    else err invalid_operation

abbrev decode_state : List ℕ → Result NodeSchemaState
decode_state (n ∷ h ∷ []) = ok (state_of n (if h == 0 then "a" else "b"))
decode_state _ = err invalid_operation

decode-encode_state :
    (s : NodeSchemaState) (bytes : List ℕ) → encode_state s ≡ ok bytes → decode_state bytes ≡ ok s
decode-encode_state s bytes h = ground (
  arith,
  eq_iff s.previous_hash "",
  eq_iff s.harmony_lite_version "",
  eq_iff s.schema_hash "a",
  eq_iff s.schema_hash "b",
)

abbrev toy_state_codec : StateCodec
toy_state_codec = record {
  marshal = encode_state;
  unmarshal = decode_state;
  unmarshal-marshal = decode-encode_state;
}

abbrev digit : ℕ → String
digit n = if n == 1 then "1" else "2"

abbrev two_states : List NodeSchemaState
two_states = state_of 2 "b" ∷ state_of 1 "a" ∷ []

no_two : ¬ (node_key digit 2 ≡ node_key digit 1)
unfolding node_key
no_two e = ground (arith, eq_iff "node-2" "node-1")

published_consistent_iff_example :
    let s = (publish_all map_registry toy_state_codec digit two_states []).1 in
    (rep : SchemaConsistencyReport) × (check_cluster_schema_consistency
        (λ xs. xs)
        (keys_in s)
        (entry_at map_registry toy_state_codec digit s)
      ≡ ok rep)
    × ((rep.consistent ≡ true) ↔ ((h : String) × All (λ p. p.schema_hash ≡ h) two_states))
unfolding publish_all publish_schema_state put_state node_key
published_consistent_iff_example =
    published_consistent_iff map_registry toy_state_codec digit (λ xs. xs)
      (λ xs Q. ((λ a. a), (λ a. a))) two_states [] refl (((λ e. no_two e), tt), (tt, tt)) tt refl
