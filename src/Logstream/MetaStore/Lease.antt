-- ===== src/Logstream/MetaStore/Lease.antt =====
-- An attempt at another node's lease: logstream/replicator_meta_store.go.
use harmonylite.Prelude.{
  ℕ, ◌+◌, ◌<◌, String, ◌≡◌, refl, sym, ap, ◌∙◌, ◌≢◌, inl, inr, Bool, true, false, Option, none,
  some, List, arith, ◌==◌, if◌then◌else◌, ==_iff, Bool-cases, Err, Result, ok, err,
}
use harmonylite.Logstream.MetaStore.{
  Bucket, LeaseCodec, LockInfo, acquire_lease, on_get, created, updated, is_held, on_info,
  on_payload,
}

module _ {S : Type 0} (bucket : Bucket S) (codec : LeaseCodec) (lease : String) where
  -- The bucket holds this entry for the lease, at this revision.
  abbrev pub Holds : LockInfo → ℕ → S → Type 0
  Holds info r s =
      (v : List ℕ) × (bucket.get lease s ≡ ok (some (v, r))) × (codec.serialize info ≡ ok v)

  -- A revision is given out once: what was read with this revision is this entry.
  abbrev pub NotReused : LockInfo → ℕ → S → Type 0
  NotReused info r before =
      (w : List ℕ) → bucket.get lease before ≡ ok (some (w, r)) → codec.serialize info ≡ ok w

  -- A read of the entry itself.
  pub Holds-NotReused :
      (info : LockInfo) (r : ℕ) (before s : S)
      → before ≡ s
      → Holds info r s
      → NotReused info r before
  Holds-NotReused info r before s same (v, g, enc) w e = ground (arith, g, e, enc, same)

  created-true :
      (x : Result ℕ × S)
      → (created bucket codec lease x).0 ≡ ok true
      → (r : ℕ) × (x.0 ≡ ok r) × ((created bucket codec lease x).1 ≡ x.1)
  unfolding created
  created-true (err e, t) h = cc
  created-true (ok r, t) h = (r, refl, ground arith)

  updated-true :
      (x : Result ℕ × S)
      → (updated bucket codec lease x).0 ≡ ok true
      → (r : ℕ) × (x.0 ≡ ok r) × ((updated bucket codec lease x).1 ≡ x.1)
  unfolding updated
  updated-true (err e, t) h = cc
  updated-true (ok r, t) h = (r, refl, refl)

  -- The bucket has the payload at the lease's key.
  abbrev Written : List ℕ → S → Type 0
  Written payload s = (r : ℕ) × (bucket.get lease s ≡ ok (some (payload, r)))

  on_info-writes :
      (payload : List ℕ) (node_id duration now n : ℕ) (x : Result LockInfo) (s : S)
      → (on_info bucket codec lease payload node_id duration now n x s).0 ≡ ok true
      → Written payload (on_info bucket codec lease payload node_id duration now n x s).1
  unfolding on_info
  on_info-writes payload node_id duration now n (err e) s = λ h. cc
  on_info-writes payload node_id duration now n (ok info) s =
      by_held (is_held bucket codec lease info node_id duration now)
    where
      decide : Bool → Result Bool × S
      decide held =
          if held
          then (ok false, s)
          else updated bucket codec lease (bucket.update lease payload n s)

      by_held : (held : Bool) → (decide held).0 ≡ ok true → Written payload (decide held).1
      by_held true h = cc
      by_held false h =
          let (r, e, k) = updated-true (bucket.update lease payload n s) h in
          (r, rw k (bucket.get-update lease payload n r s e))

  on_get-writes :
      (payload : List ℕ) (node_id duration now : ℕ) (mine : LockInfo)
      (g : Result (Option (List ℕ × ℕ))) (s : S)
      → (on_get bucket codec lease payload node_id duration now mine g s).0 ≡ ok true
      → Written payload (on_get bucket codec lease payload node_id duration now mine g s).1
  unfolding on_get
  on_get-writes payload node_id duration now mine (err e) s h = cc
  on_get-writes payload node_id duration now mine (ok none) s h =
      let (r, e, k) = created-true (bucket.create lease payload s) h in
      (r, rw k (bucket.get-create lease payload r s e))
  on_get-writes payload node_id duration now mine (ok (some (v, n))) s h =
      on_info-writes payload node_id duration now n (codec.deserialize_from v mine) s h

  -- Whoever acquires the lease leaves an entry with its own id and the time of the call, whatever
  -- happened to the bucket between the reading and the writing.
  pub acquire-Holds :
      (node_id duration now : ℕ) (before s : S)
      → (acquire_lease bucket codec lease node_id duration now before s).0 ≡ ok true
      → (r : ℕ) × Holds
          (record { node_id = node_id; timestamp = now })
          r
          (acquire_lease bucket codec lease node_id duration now before s).1
  unfolding acquire_lease on_payload
  acquire-Holds node_id duration now before s = by_payload (codec.serialize mine) refl
    where
      mine : LockInfo
      mine = record { node_id = node_id; timestamp = now }

      by_payload :
          (x : Result (List ℕ))
          → codec.serialize mine ≡ x
          → (on_payload bucket codec lease node_id duration now mine before x s).0 ≡ ok true
          → (r : ℕ) × Holds mine r
              (on_payload bucket codec lease node_id duration now mine before x s).1
      by_payload (err e) q h = cc
      by_payload (ok payload) q h =
          let (r, k) =
            on_get-writes payload node_id duration now mine (bucket.get lease before) s h in
          (r, (payload, k, q))

  -- What another node's attempt must come to.
  abbrev Refused : S → Result Bool × S → Type 0
  Refused s x = (x.0 ≢ ok true) × (x.1 ≡ s)

  Refused-info :
      (info : LockInfo) (r n node_id duration now : ℕ) (v payload : List ℕ) (x : Result LockInfo)
      (s : S)
      → bucket.get lease s ≡ ok (some (v, r))
      → (n ≡ r → x ≡ ok info)
      → node_id ≢ info.node_id
      → now < info.timestamp + duration
      → Refused s (on_info bucket codec lease payload node_id duration now n x s)
  unfolding on_info updated
  Refused-info info r n node_id duration now v payload x s g same ne young =
      elim (Bool-cases (n == r)) [
        | inl e ↦ rw (same ((==_iff n r).0 e)) ground (arith, young)
        | inr e ↦
            let (y, k) =
              bucket.update_other lease v payload r n s g
                (λ q. false_true (sym e ∙ (==_iff n r).1 q)) in
            by_info y k x
      ]
    where
      false_true : ¬ (false ≡ true)
      false_true k = cc

      by_info :
          (y : Err)
          → bucket.update lease payload n s ≡ (err y, s)
          → (z : Result LockInfo)
          → Refused s (on_info bucket codec lease payload node_id duration now n z s)
      by_info y k (err e) = ground arith
      by_info y k (ok i) = rw k ground arith

  Refused-get :
      (info mine : LockInfo) (r node_id duration now : ℕ) (v payload : List ℕ)
      (x : Result (Option (List ℕ × ℕ))) (s : S)
      → bucket.get lease s ≡ ok (some (v, r))
      → codec.serialize info ≡ ok v
      → ((w : List ℕ) → x ≡ ok (some (w, r)) → w ≡ v)
      → node_id ≢ info.node_id
      → now < info.timestamp + duration
      → Refused s (on_get bucket codec lease payload node_id duration now mine x s)
  unfolding on_get created
  Refused-get info mine r node_id duration now v payload (err e) s g enc same ne young =
      ground arith
  Refused-get info mine r node_id duration now v payload (ok none) s g enc same ne young =
      let (y, k) = bucket.create_there lease v payload r s g in rw k ground arith
  Refused-get info mine r node_id duration now v payload (ok (some (w, n))) s g enc same ne young =
      Refused-info info r n node_id duration now v payload (codec.deserialize_from w mine) s g
        decoded ne young
    where
      decoded : n ≡ r → codec.deserialize_from w mine ≡ ok info
      decoded q =
          rw (same w (ap (λ m. ok (some (w, m))) q)) (codec.deserialize-serialize info mine v enc)

  -- While a node's entry is younger than the lease's duration, no other node acquires the lease
  -- and the entry stays, even if the other node read the bucket at an earlier moment at which the
  -- lease was free or expired. What it read is the entry itself if it has the entry's revision.
  pub lease_excludes :
      (info : LockInfo) (r node_id duration now : ℕ) (before s : S)
      → Holds info r s
      → NotReused info r before
      → node_id ≢ info.node_id
      → now < info.timestamp + duration
      → ((acquire_lease bucket codec lease node_id duration now before s).0 ≢ ok true)
        × Holds info r (acquire_lease bucket codec lease node_id duration now before s).1
  unfolding acquire_lease on_payload
  lease_excludes info r node_id duration now before s (v, g, enc) nr ne young =
      by_payload (codec.serialize mine)
    where
      mine : LockInfo
      mine = record { node_id = node_id; timestamp = now }

      stays : (x : Result Bool × S) → Refused s x → (x.0 ≢ ok true) × Holds info r x.1
      stays x (lost, k) = (lost, (v, rw k g, enc))

      by_payload :
          (x : Result (List ℕ))
          → (((on_payload bucket codec lease node_id duration now mine before x s).0 ≢ ok true)
              × Holds info r (on_payload bucket codec lease node_id duration now mine before x s).1)
      by_payload (err e) = stays (err e, s) (ground arith)
      by_payload (ok payload) =
          stays
            (on_get bucket codec lease payload node_id duration now mine (bucket.get lease before)
              s)
            (Refused-get info mine r node_id duration now v payload (bucket.get lease before) s g
              enc (λ w e. ground (arith, nr w e, enc)) ne young)
