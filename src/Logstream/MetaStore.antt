-- ===== src/Logstream/MetaStore.antt =====
-- logstream/replicator_meta_store.go: leases in a key-value bucket. The bucket is outside the
-- repository, and so is `cbor`: they are the parameters `Bucket` and `LeaseCodec`, whose laws are
-- what NATS documents of `Get`, `Create` and `Update`. Times are milliseconds as natural numbers,
-- for their sum stays far below 2^63. The goroutine that renews a lease by the same call is in
-- Refreshing, and the creation of the bucket in Stream.Buckets.
pub mod Lease
pub mod Free
pub mod Refreshing
use harmonylite.Prelude.{
  ◌≐◌, ℕ, ◌+◌, String, ◌≡◌, ◌≢◌, Bool, true, false, not, ◌&&◌, Option, none, some, List, ltb, ◌==◌,
  if◌then◌else◌, Err, Result, ok, err, string_eq, nat_eq,
}
use harmonylite.Prelude.Results.{key_not_found, exited}

-- `replicatorLockInfo`
pub record LockInfo : Type 0 where
  pub node_id : ℕ
  pub timestamp : ℕ

-- Decoding fills the fields of a value that is there already.
pub record LeaseCodec : Type 0 where
  pub serialize : LockInfo → Result (List ℕ)
  pub deserialize_from : List ℕ → LockInfo → Result LockInfo
  pub deserialize-serialize :
      (i j : LockInfo) (bytes : List ℕ) → serialize i ≡ ok bytes → deserialize_from bytes j ≡ ok i

-- A bucket. `get` returns the value with its revision, and `none` is `ErrKeyNotFound`.
pub record Bucket (S : Type 0) : Type 0 where
  pub get : String → S → Result (Option (List ℕ × ℕ))
  pub create : String → List ℕ → S → Result ℕ × S
  pub update : String → List ℕ → ℕ → S → Result ℕ × S
  -- A key that is there cannot be created; what fails changes nothing.
  pub create_there :
      (k : String) (v w : List ℕ) (r : ℕ) (s : S)
      → get k s ≡ ok (some (v, r))
      → ((e : Err) × (create k w s ≡ (err e, s)))
  -- An update fails unless it names the revision of the value.
  pub update_other :
      (k : String) (v w : List ℕ) (r n : ℕ) (s : S)
      → get k s ≡ ok (some (v, r))
      → n ≢ r
      → ((e : Err) × (update k w n s ≡ (err e, s)))
  -- What was written is there.
  pub get-create :
      (k : String) (v : List ℕ) (r : ℕ) (s : S)
      → (create k v s).0 ≡ ok r
      → get k (create k v s).1 ≡ ok (some (v, r))
  pub get-update :
      (k : String) (v : List ℕ) (n r : ℕ) (s : S)
      → (update k v n s).0 ≡ ok r
      → get k (update k v n s).1 ≡ ok (some (v, r))

module _ {S : Type 0} (bucket : Bucket S) (codec : LeaseCodec) (lease : String) where
  -- `rev != 0 && err == nil`; a nil entry with a nil error is dereferenced.
  created : Result ℕ × S → Result Bool × S
  created (err e, s) = (err e, s)
  created (ok rev, s) = if rev == 0 then (err exited, s) else (ok true, s)

  updated : Result ℕ × S → Result Bool × S
  updated (err e, s) = (err e, s)
  updated (ok rev, s) = (ok true, s)

  -- `info.NodeID != cfg.Config.NodeID && info.Timestamp+duration.Milliseconds() > now`
  abbrev pub is_held : LockInfo → ℕ → ℕ → ℕ → Bool
  is_held info node_id duration now =
      not (info.node_id ≐ node_id) && ltb now (info.timestamp + duration)

  pub on_info : List ℕ → ℕ → ℕ → ℕ → ℕ → Result LockInfo → S → Result Bool × S
  unfolding updated
  on_info payload node_id duration now revision (err e) s = (err e, s)
  on_info payload node_id duration now revision (ok info) s =
      if is_held info node_id duration now
      then (ok false, s)
      else updated (bucket.update lease payload revision s)

  on_get : List ℕ → ℕ → ℕ → ℕ → LockInfo → Result (Option (List ℕ × ℕ)) → S → Result Bool × S
  unfolding on_info created
  on_get payload node_id duration now mine (err e) s = (err e, s)
  on_get payload node_id duration now mine (ok none) s = created (bucket.create lease payload s)
  on_get payload node_id duration now mine (ok (some (value, revision))) s =
      on_info payload node_id duration now revision (codec.deserialize_from value mine) s

  pub on_payload : ℕ → ℕ → ℕ → LockInfo → S → Result (List ℕ) → S → Result Bool × S
  unfolding on_get
  on_payload node_id duration now mine before (err e) s = (err e, s)
  on_payload node_id duration now mine before (ok payload) s =
      on_get payload node_id duration now mine (bucket.get lease before) s

  -- `AcquireLease`. Between the reading and the writing other nodes act on the bucket: `before` is
  -- the bucket as it is read, and the last argument the bucket as it is when the write arrives.
  unfoldable pub acquire_lease : ℕ → ℕ → ℕ → S → S → Result Bool × S
  unfolding on_payload
  acquire_lease node_id duration now before s =
      let mine : LockInfo = record { node_id = node_id; timestamp = now } in
      on_payload node_id duration now mine before (codec.serialize mine) s
