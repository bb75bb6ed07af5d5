-- ===== src/Logstream/MetaStore/Refreshing/Kept.antt =====
-- Renewals of a lease and other nodes' attempts: logstream/replicator_meta_store.go.
use harmonylite.Prelude.{
  All, All-append, ℕ, ◌+◌, ◌<◌, String, ◌≡◌, refl, sym, subst, ◌≢◌, inl, Bool, true, false, List,
  [], ◌∷◌, Err, Result, ok, err,
}
use harmonylite.Logstream.MetaStore.{Bucket, LeaseCodec, acquire_lease}
use harmonylite.Logstream.MetaStore.Lease.{Holds, lease_excludes, acquire-Holds, Holds-NotReused}
use harmonylite.Logstream.MetaStore.Free.{IsReliable, acquire_free}
use harmonylite.Logstream.MetaStore.Refreshing.{
  Rival, Turn, Renewing, failed, attempts, renew, on_renewal,
}

module _ {S : Type 0} (bucket : Bucket S) (codec : LeaseCodec) (lease : String) (duration : ℕ)
    (reliable : IsReliable bucket codec) (node_id : ℕ) where
  -- The entry in the bucket is the node's, of the given time.
  abbrev pub IsHeld : ℕ → S → Type 0
  IsHeld at s =
      (r : ℕ) × Holds bucket codec lease (record { node_id = node_id; timestamp = at }) r s

  -- Another node attempts before the lease of the given time ends, with nothing between its reading
  -- and its writing.
  abbrev pub AreRivals : ℕ → List (Rival S) → S → Type 0
  AreRivals at [] s = Unit
  AreRivals at (x ∷ xs) s =
      (x.node_id ≢ node_id)
      × (x.now < at + duration)
      × (x.before ≡ s)
      × AreRivals at xs (acquire_lease bucket codec lease x.node_id duration x.now x.before s).1

  -- Each attempt of another node comes before the lease ends that was last renewed.
  abbrev pub AreInTime : ℕ → List (Turn S) → S → Type 0
  AreInTime at [] s = Unit
  AreInTime at (t ∷ ts) s =
      AreRivals at t.rivals s
      × (t.before ≡ (attempts bucket codec lease duration t.rivals s).1)
      × AreInTime t.now ts
          (acquire_lease bucket codec lease node_id duration t.now t.before
            (attempts bucket codec lease duration t.rivals s).1).1

  abbrev pub IsLost : Result Bool → Type 0
  IsLost x = x ≢ ok true

  -- No other node acquired the lease, and the renewing has not failed.
  abbrev pub IsKept : List (Result Bool) × Renewing × S → Type 0
  IsKept x = All IsLost x.0 × ((e : Err) → x.1 ≢ failed e)

  attempts-IsLost :
      (at : ℕ) (xs : List (Rival S)) (s : S)
      → IsHeld at s
      → AreRivals at xs s
      → All IsLost (attempts bucket codec lease duration xs s).0
        × IsHeld at (attempts bucket codec lease duration xs s).1
  unfolding attempts
  attempts-IsLost at [] s h a = (tt, h)
  attempts-IsLost at (x ∷ xs) s (r, h) (other, young, fresh, later) =
      let (lost, kept) =
        lease_excludes bucket codec lease (record { node_id = node_id; timestamp = at }) r x.node_id
          duration x.now x.before s h (Holds-NotReused bucket codec lease _ r x.before s fresh h)
          other young in
      let (losts, kept') = attempts-IsLost at xs _ (r, kept) later in ((lost, losts), kept')

  on_renewal-keeps :
      (is_done : Bool) (ts : List (Turn S)) (x : Result Bool × S)
      → x.0 ≡ ok true
      → IsKept (renew bucket codec lease duration node_id ts x.1)
      → IsKept (
          on_renewal bucket codec lease duration is_done
            (renew bucket codec lease duration node_id ts)
            x)
  unfolding on_renewal
  on_renewal-keeps is_done ts (err e, s) h k = cc
  on_renewal-keeps is_done ts (ok false, s) h k = k
  on_renewal-keeps true ts (ok true, s) h k = (tt, λ e. λ q. cc)
  on_renewal-keeps false ts (ok true, s) h k = k

  -- A lease that was acquired is kept by the renewals, on a bucket and an encoder that work, if each
  -- attempt of another node comes before the end of the lease as it was last renewed, and nothing
  -- comes between an attempt's reading and its writing: no other node acquires it, and the renewing
  -- does not fail.
  pub renewal_keeps :
      (at : ℕ) (ts : List (Turn S)) (s : S)
      → IsHeld at s
      → AreInTime at ts s
      → IsKept (renew bucket codec lease duration node_id ts s)
  unfolding renew
  renewal_keeps at [] s h a = (tt, λ e. λ q. cc)
  renewal_keeps at (t ∷ ts) s h (rivals, fresh, later) =
      let (losts, (r, kept)) = attempts-IsLost at t.rivals s h rivals in
      let again =
        acquire_free bucket codec lease reliable (record { node_id = node_id; timestamp = at }) r
          node_id duration t.now _ kept (inl refl) in
      let acquired =
        subst
          (λ b.
            (acquire_lease bucket codec lease node_id duration t.now b
              (attempts bucket codec lease duration t.rivals s).1).0
            ≡ ok true)
          (sym fresh) again in
      let held = acquire-Holds bucket codec lease node_id duration t.now t.before _ acquired in
      let (rest, how) =
        on_renewal-keeps t.is_done ts _ acquired (renewal_keeps t.now ts _ held later) in
      (All-append IsLost _ _ losts rest, how)
