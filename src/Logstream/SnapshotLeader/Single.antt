-- ===== src/Logstream/SnapshotLeader/Single.antt =====
-- Other nodes' attempts while a leader's lease lasts: logstream/snapshot_leader.go.
use harmonylite.Prelude.{
  All, ℕ, ◌+◌, ◌*◌, ◌/◌, ◌≤◌, ◌<◌, ◌≡◌, refl, ◌≢◌, ◌⊎◌, inl, inr, Bool, true, false, List, [], ◌∷◌,
  arith, if◌then◌else◌, Result, ok, err,
}
use harmonylite.Logstream.SnapshotLeader.{
  SnapshotLeader, try_acquire_leadership, snapshot_leader_key, new_snapshot_leader, second,
  on_acquired,
}
use harmonylite.Logstream.MetaStore.{Bucket, LeaseCodec, LockInfo, acquire_lease}
use harmonylite.Logstream.MetaStore.Lease.{Holds, NotReused, lease_excludes}

-- The lease of a leader is renewed in time, unless it is shorter than three seconds: the heartbeat
-- is at most a third of the lease, and at least one second.
pub heartbeat-bounds :
    (node_id : ℕ) (has_meta_store : Bool) (ttl : ℕ)
    → (ttl ≡ 0) ⊎ (3 * second ≤ ttl)
    → let l = new_snapshot_leader node_id has_meta_store ttl in
      (3 * l.heartbeat ≤ l.ttl) × (second ≤ l.heartbeat)
unfolding new_snapshot_leader
heartbeat-bounds node_id has_meta_store ttl (inl e) = ground arith
heartbeat-bounds node_id has_meta_store ttl (inr h) = ground arith

module _ {S : Type 0} (bucket : Bucket S) (codec : LeaseCodec) where
  -- An attempt of a node: its state, the time, and the bucket as it is read.
  abbrev pub Attempt : Type 0
  Attempt = (SnapshotLeader × ℕ) × S

  -- One attempt after the other; the result has each node's state after its attempt. Between an
  -- attempt's reading and its writing, the bucket may change.
  unfoldable pub run : List Attempt → S → List SnapshotLeader × S
  run [] s = ([], s)
  run (((l, now), before) ∷ rest) s =
      let (l', s') = try_acquire_leadership bucket codec now before l s in
      let (ls, s'') = run rest s' in (l' ∷ ls, s'')

  -- The attempt is another node's, at a time before the lease of the entry ends, it reads what was
  -- in the bucket, and the node does not count itself the leader.
  abbrev pub IsRival : LockInfo → ℕ → Attempt → Type 0
  IsRival info r ((l, now), before) =
      (l.node_id ≢ info.node_id)
      × (now < info.timestamp + l.ttl / 1_000_000)
      × NotReused bucket codec snapshot_leader_key info r before
      × (l.is_leader ≡ false)

  stays_follower :
      (flag : Bool) (x : Result Bool)
      → flag ≡ false
      → x ≢ ok true
      → on_acquired bucket codec flag x ≡ false
  unfolding on_acquired
  stays_follower flag (err e) f n = ground arith
  stays_follower flag (ok true) f n = elim (n refl) [ ]
  stays_follower flag (ok false) f n = refl

  pub one_rival :
      (info : LockInfo) (r now : ℕ) (l : SnapshotLeader) (before s : S)
      → Holds bucket codec snapshot_leader_key info r s
      → IsRival info r ((l, now), before)
      → ((try_acquire_leadership bucket codec now before l s).0.is_leader ≡ false)
        × Holds bucket codec snapshot_leader_key info r
            (try_acquire_leadership bucket codec now before l s).1
  unfolding try_acquire_leadership
  one_rival info r now l before s h (other, young, fresh, follower) = by_store l.has_meta_store
    where
      x : Result Bool × S
      x = acquire_lease bucket codec snapshot_leader_key l.node_id (l.ttl / 1_000_000) now before s

      kept : (x.0 ≢ ok true) × Holds bucket codec snapshot_leader_key info r x.1
      kept =
          lease_excludes bucket codec snapshot_leader_key info r l.node_id (l.ttl / 1_000_000) now
            before s h fresh other young

      by_store :
          (b : Bool)
          → let y : SnapshotLeader × S =
              if b
              then (record l { is_leader = on_acquired bucket codec l.is_leader x.0 }, x.1)
              else (l, s) in
            (y.0.is_leader ≡ false) × Holds bucket codec snapshot_leader_key info r y.1
      by_store true = (stays_follower l.is_leader x.0 follower kept.0, kept.1)
      by_store false = (follower, h)

  -- While a node's lease lasts, no attempt of any number of other nodes, which do not count
  -- themselves leaders, makes one of them the leader, in any order and however late their writes
  -- arrive, and the lease stays. A read that has the lease's revision is a read of the lease.
  pub single_leader :
      (info : LockInfo) (r : ℕ) (attempts : List Attempt) (s : S)
      → Holds bucket codec snapshot_leader_key info r s
      → All (IsRival info r) attempts
      → All (λ (l : SnapshotLeader). l.is_leader ≡ false) (run attempts s).0
        × Holds bucket codec snapshot_leader_key info r (run attempts s).1
  unfolding run
  single_leader info r [] s h a = (tt, h)
  single_leader info r (((l, now), before) ∷ rest) s h a =
      let (flag, h') = one_rival info r now l before s h a.0 in
      let (flags, h'') = single_leader info r rest _ h' a.1 in ((flag, flags), h'')
