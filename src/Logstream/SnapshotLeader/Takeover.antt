-- ===== src/Logstream/SnapshotLeader/Takeover.antt =====
-- Attempts at a leadership that has run out: logstream/snapshot_leader.go.
use harmonylite.Prelude.{
  ℕ, ◌+◌, ◌/◌, ◌≤◌, ◌<◌, ◌≡◌, refl, ◌≢◌, ◌⊎◌, inl, inr, true, List, [], ◌∷◌, arith, ltb, ◌==◌,
  Bool-cases,
}
use harmonylite.Logstream.SnapshotLeader.{
  SnapshotLeader, try_acquire_leadership, snapshot_leader_key, on_acquired,
}
use harmonylite.Logstream.MetaStore.{Bucket, LeaseCodec, LockInfo}
use harmonylite.Logstream.MetaStore.Lease.{Holds, lease_excludes, Holds-NotReused}
use harmonylite.Logstream.MetaStore.Free.{IsReliable, acquire_free}
use harmonylite.Logstream.SnapshotLeader.Single.{Attempt, run}

module _ {S : Type 0} (bucket : Bucket S) (codec : LeaseCodec)
    (reliable : IsReliable bucket codec) where
  -- Some node is the leader after its attempt.
  abbrev pub HasLeader : List SnapshotLeader → Type 0
  HasLeader [] = ⊥
  HasLeader (l ∷ ls) = (l.is_leader ≡ true) ⊎ HasLeader ls

  -- Each attempt reads the bucket as its write finds it, and each node has its bucket.
  abbrev pub AreFresh : List (Attempt bucket codec) → S → Type 0
  AreFresh [] s = Unit
  AreFresh (((l, now), before) ∷ rest) s =
      (l.has_meta_store ≡ true)
      × (before ≡ s)
      × AreFresh rest (try_acquire_leadership bucket codec now before l s).1

  -- One of the attempts comes when the lease has run out.
  abbrev pub HasLate : ℕ → List (Attempt bucket codec) → Type 0
  HasLate timestamp [] = ⊥
  HasLate timestamp (((l, now), before) ∷ rest) =
      (timestamp + l.ttl / 1_000_000 ≤ now) ⊎ HasLate timestamp rest

  pub becomes_leader :
      (info : LockInfo) (r now : ℕ) (l : SnapshotLeader) (s : S)
      → Holds bucket codec snapshot_leader_key info r s
      → l.has_meta_store ≡ true
      → (l.node_id ≡ info.node_id) ⊎ (info.timestamp + l.ttl / 1_000_000 ≤ now)
      → (try_acquire_leadership bucket codec now s l s).0.is_leader ≡ true
  unfolding try_acquire_leadership on_acquired
  becomes_leader info r now l s h meta free =
      rw
        (
          meta,
          acquire_free bucket codec snapshot_leader_key reliable info r l.node_id
              (l.ttl / 1_000_000) now s h free,
        )
        refl

  stays_held :
      (info : LockInfo) (r now : ℕ) (l : SnapshotLeader) (s : S)
      → Holds bucket codec snapshot_leader_key info r s
      → l.has_meta_store ≡ true
      → l.node_id ≢ info.node_id
      → now < info.timestamp + l.ttl / 1_000_000
      → Holds bucket codec snapshot_leader_key info r
          (try_acquire_leadership bucket codec now s l s).1
  unfolding try_acquire_leadership
  stays_held info r now l s h meta other young =
      rw meta
        (lease_excludes bucket codec snapshot_leader_key info r l.node_id (l.ttl / 1_000_000) now s
          s h (Holds-NotReused bucket codec snapshot_leader_key info r s s refl h) other young).1

  -- An attempt on a held lease makes its node the leader, or comes too early and leaves the entry.
  pub attempt-cases :
      (info : LockInfo) (r now : ℕ) (l : SnapshotLeader) (s : S)
      → Holds bucket codec snapshot_leader_key info r s
      → l.has_meta_store ≡ true
      → ((try_acquire_leadership bucket codec now s l s).0.is_leader ≡ true)
        ⊎ ((now < info.timestamp + l.ttl / 1_000_000)
            × (l.node_id ≢ info.node_id)
            × Holds bucket codec snapshot_leader_key info r
                (try_acquire_leadership bucket codec now s l s).1)
  attempt-cases info r now l s h meta = elim (Bool-cases (l.node_id == info.node_id)) [
    | inl e ↦ inl (becomes_leader info r now l s h meta (inl (ground (arith, e))))
    | inr ne ↦ elim (Bool-cases (ltb now (info.timestamp + l.ttl / 1_000_000))) [
      | inl e ↦
          let young : now < info.timestamp + l.ttl / 1_000_000 = ground (arith, e) in
          let other : l.node_id ≢ info.node_id = λ k. ground (arith, k, ne) in
          inr (young, other, stays_held info r now l s h meta other young)
      | inr e ↦ inl (becomes_leader info r now l s h meta (inr (ground (arith, e))))
    ]
  ]

  -- If the leader's entry runs out, then among any attempts of any nodes, in any order, one of which
  -- comes at or after that time, some attempt makes its node the leader, on a bucket and an encoder
  -- that work and with nothing between an attempt's reading and its writing.
  pub some_leader :
      (info : LockInfo) (r : ℕ) (attempts : List (Attempt bucket codec)) (s : S)
      → Holds bucket codec snapshot_leader_key info r s
      → AreFresh attempts s
      → HasLate info.timestamp attempts
      → HasLeader (run bucket codec attempts s).0
  unfolding run
  some_leader info r [] s h fresh late = late
  some_leader info r (((l, now), before) ∷ rest) s h (meta, same, fresh) late =
      elim (attempt-cases info r now l s h meta) [
        | inl e ↦ inl (rw same e)
        | inr (young, other, held) ↦ inr (
            some_leader info r rest _ (rw same held) fresh
              (elim late [ inl old ↦ absurd (omega arith) | inr later ↦ later ]))
      ]
