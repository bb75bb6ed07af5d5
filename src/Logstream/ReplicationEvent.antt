-- ===== src/Logstream/ReplicationEvent.antt =====
-- logstream/replication_event.go: an event between two nodes, at its payload `db.ChangeLogEvent`.
-- The encoder and the decoder are outside the repository, and are the parameter `EventCodec`.
use harmonylite.Prelude.{
  lookup, ℕ, String, ◌≡◌, refl, ◌∙◌, List, [], arith, Result, Outcome, ok, err, string_eq, nat_eq,
  ◌>>=◌, ◌>>◌,
}
use harmonylite.Db.Event.{
  ChangeLogEvent, IsPlain, HasNoPointer, wrap, unwrap, received, in_precision, prepare, map_values,
  unwrap_value, map_value, prepare_keeps, prepare-IsPlain, lookup-unwrap-prepare,
}

pub record ReplicationEvent : Type 0 where
  pub from_node_id : ℕ
  pub payload : ChangeLogEvent

abbrev pub blank : ReplicationEvent
blank = record {
  from_node_id = 0;
  payload = record {
    id = 0;
    type = "";
    table_name = "";
    row = [];
    schema_hash = "";
    table_info = [];
  };
}

-- What the decoder finds of an encoded event: `tableInfo` is not encoded, the row may list its
-- entries in another order, and a time has the precision of the encoding.
pub record Arrives (precision : ℕ → ℕ) (sent found : ReplicationEvent) : Type 0 where
  pub from_node_id : found.from_node_id ≡ sent.from_node_id
  pub id : found.payload.id ≡ sent.payload.id
  pub type : found.payload.type ≡ sent.payload.type
  pub table_name : found.payload.table_name ≡ sent.payload.table_name
  pub row :
      (k : String)
      → lookup k found.payload.row ≡ map_value (in_precision precision) (lookup k sent.payload.row)
  pub schema_hash : found.payload.schema_hash ≡ sent.payload.schema_hash
  pub table_info : found.payload.table_info ≡ []

-- `enc_mode` and `dec_mode` are what `EncModeWithTags` and `DecModeWithTags` return. A decoder
-- writes into a value that is there. The tag of `sensitiveTypeWrapper` is registered, so that a
-- row with no time outside a wrapper comes back with the types that it had. `precision` is what is left of a time
-- under `cbor.EncOptions{}`, which encodes whole seconds.
pub record EventCodec : Type 0 where
  pub enc_mode : Outcome
  pub dec_mode : Outcome
  pub precision : ℕ → ℕ
  pub encode : ReplicationEvent → Result (List ℕ)
  pub decode : List ℕ → ReplicationEvent → Result ReplicationEvent
  pub decode_encode :
      (e : ReplicationEvent) (bytes : List ℕ)
      → IsPlain e.payload.row
      → encode e ≡ ok bytes
      → (found : ReplicationEvent) × (decode bytes blank ≡ ok found) × Arrives precision e found

unfoldable pub marshal : EventCodec → ReplicationEvent → Result (List ℕ)
marshal c e = do
  wrapped ← wrap e.payload
  c.enc_mode
  c.encode (record { from_node_id = e.from_node_id; payload = wrapped })

-- A decoder that cannot be made is reported as success, and the event stays as it was.
unfoldable pub unmarshal : EventCodec → ReplicationEvent → List ℕ → Result ReplicationEvent
unmarshal c e bytes = elim c.dec_mode [
  | err _ ↦ ok e
  | ok _ ↦ do
    found ← c.decode bytes e
    payload ← unwrap found.payload
    ok (record { from_node_id = found.from_node_id; payload = payload })
]

-- What a receiver has of an event that was sent: all but the hash, the table's columns, and the type
-- and the precision of the times.
pub record Received (precision : ℕ → ℕ) (sent found : ReplicationEvent) : Type 0 where
  pub from_node_id : found.from_node_id ≡ sent.from_node_id
  pub id : found.payload.id ≡ sent.payload.id
  pub type : found.payload.type ≡ sent.payload.type
  pub table_name : found.payload.table_name ≡ sent.payload.table_name
  pub row :
      (k : String)
      → lookup k found.payload.row ≡ map_value (received precision) (lookup k sent.payload.row)

-- The event that `unmarshal` makes of what the decoder found.
abbrev unwrapped : ReplicationEvent → ReplicationEvent
unwrapped found = record {
  from_node_id = found.from_node_id;
  payload = record found.payload {
    row = map_values unwrap_value found.payload.row;
    schema_hash = "";
  };
}

unwrap-Received :
    (precision : ℕ → ℕ) (e found : ReplicationEvent)
    → Arrives precision
        (record { from_node_id = e.from_node_id; payload = prepare e.payload })
        found
    → Received precision e (unwrapped found)
unwrap-Received precision e found a =
    let (same_id, same_type, same_table, _) = prepare_keeps e.payload in
    record {
      from_node_id = a.from_node_id;
      id = a.id ∙ same_id;
      type = a.type ∙ same_type;
      table_name = a.table_name ∙ same_table;
      row = λ k. lookup-unwrap-prepare precision k found.payload.row e.payload a.row;
    }

module _ (c : EventCodec) where
  unmarshal-found :
      (bytes : List ℕ) (found : ReplicationEvent)
      → c.dec_mode ≡ ok tt
      → c.decode bytes blank ≡ ok found
      → unmarshal c blank bytes ≡ ok (unwrapped found)
  unfolding unmarshal unwrap
  unmarshal-found bytes found d h = ground arith

  encoded :
      (e : ReplicationEvent) (bytes : List ℕ)
      → marshal c e ≡ ok bytes
      → c.encode (record { from_node_id = e.from_node_id; payload = prepare e.payload }) ≡ ok bytes
  unfolding marshal wrap
  encoded e bytes h = ground arith

  -- An event that was marshalled is unmarshalled to the same event, but for three things: its times
  -- arrive as pointers and in the precision of the encoding, the table's columns are gone, and so is the schema hash, always.
  pub unmarshal-marshal :
      (e : ReplicationEvent) (bytes : List ℕ)
      → HasNoPointer e.payload.row
      → c.dec_mode ≡ ok tt
      → marshal c e ≡ ok bytes
      → (found : ReplicationEvent) × (unmarshal c blank bytes ≡ ok found)
        × Received c.precision e found
        × (found.payload.schema_hash ≡ "")
        × (found.payload.table_info ≡ [])
  unmarshal-marshal e bytes p d h =
      let (found, f, a) =
        c.decode_encode (record { from_node_id = e.from_node_id; payload = prepare e.payload })
          bytes (prepare-IsPlain e.payload p) (encoded e bytes h) in
      (
        unwrapped found,
        unmarshal-found bytes found d f,
        unwrap-Received c.precision e found a,
        refl,
        a.table_info,
      )
