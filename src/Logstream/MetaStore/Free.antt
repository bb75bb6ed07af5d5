-- ===== src/Logstream/MetaStore/Free.antt =====
-- An attempt at a lease that is the node's own or has run out:
-- logstream/replicator_meta_store.go.
use harmonylite.Prelude.{
  ℕ, ◌+◌, ◌≤◌, String, ◌≡◌, refl, ◌⊎◌, inl, inr, true, false, some, List, arith, ==_iff, Result, ok,
  err,
}
use harmonylite.Logstream.MetaStore.{
  Bucket, LeaseCodec, LockInfo, acquire_lease, on_get, updated, is_held, on_info, on_payload,
}
use harmonylite.Logstream.MetaStore.Lease.{Holds}

-- A bucket that takes a write which names the entry's revision, and an encoder that does not fail.
pub record IsReliable {S : Type 0} (bucket : Bucket S) (codec : LeaseCodec) : Type 0 where
  pub update_same :
      (k : String) (v w : List ℕ) (r : ℕ) (s : S)
      → bucket.get k s ≡ ok (some (v, r))
      → (m : ℕ) × ((bucket.update k w r s).0 ≡ ok m)
  pub serializes : (i : LockInfo) → (v : List ℕ) × (codec.serialize i ≡ ok v)

module _ {S : Type 0} (bucket : Bucket S) (codec : LeaseCodec) (lease : String)
    (reliable : IsReliable bucket codec) where
  not_held :
      (info : LockInfo) (node_id duration now : ℕ)
      → (node_id ≡ info.node_id) ⊎ (info.timestamp + duration ≤ now)
      → is_held bucket codec lease info node_id duration now ≡ false
  not_held info node_id duration now (inl e) = ground (arith, ==_iff info.node_id node_id)
  not_held info node_id duration now (inr h) = ground arith

  updated_ok : (x : Result ℕ × S) (m : ℕ) → x.0 ≡ ok m → (updated bucket codec lease x).0 ≡ ok true
  unfolding updated
  updated_ok (err e, s) m h = cc
  updated_ok (ok n, s) m h = refl

  -- A node whose own entry is in the bucket, or that finds an entry which has run out, acquires the
  -- lease, if nothing comes between its reading and its writing.
  pub acquire_free :
      (info : LockInfo) (r node_id duration now : ℕ) (s : S)
      → Holds bucket codec lease info r s
      → (node_id ≡ info.node_id) ⊎ (info.timestamp + duration ≤ now)
      → (acquire_lease bucket codec lease node_id duration now s s).0 ≡ ok true
  unfolding acquire_lease on_payload on_get on_info
  acquire_free info r node_id duration now s (v, g, enc) h =
      let mine : LockInfo = record { node_id = node_id; timestamp = now } in
      let (payload, q) = reliable.serializes mine in
      let (m, u) = reliable.update_same lease v payload r s g in
      rw (q, g, codec.deserialize-serialize info mine v enc, not_held info node_id duration now h)
        (updated_ok (bucket.update lease payload r s) m u)
