-- ===== src/Logstream/SnapshotLeader/Ticks.antt =====
-- The election loop of one node on the entry of a former leader: logstream/snapshot_leader.go.
use harmonylite.Prelude.{
  ℕ, zero, suc, ◌+◌, ◌-◌, ◌*◌, ◌/◌, ◌≤◌, ◌<◌, ◌≡◌, refl, ◌⊎◌, inl, inr, Bool, true, false, List, [],
  ◌∷◌, arith, ltb, Bool-cases, Result, ok, err,
}
use harmonylite.Logstream.SnapshotLeader.{
  SnapshotLeader, try_acquire_leadership, snapshot_leader_key, on_acquired, Wake, wait_for_tick,
  election_loop, ticked, new_snapshot_leader,
}
use harmonylite.Logstream.MetaStore.{Bucket, LeaseCodec, LockInfo}
use harmonylite.Logstream.MetaStore.Lease.{Holds, acquire-Holds}
use harmonylite.Logstream.MetaStore.Free.{IsReliable}
use harmonylite.Logstream.SnapshotLeader.Takeover.{becomes_leader, attempt-cases}

-- The first multiple of `h` that is not below `d`.
first_multiple : (d h : ℕ) → 0 < h → (n : ℕ) × (d ≤ n * h) × (n * h < d + h)
first_multiple zero h pos = (0, omega arith, omega arith)
first_multiple (suc d) h pos =
    let (n, low, high) = first_multiple d h pos in by_order n low high (Bool-cases (ltb d (n * h)))
  where
    by_order :
        (n : ℕ)
        → d ≤ n * h
        → n * h < d + h
        → (ltb d (n * h) ≡ true) ⊎ (ltb d (n * h) ≡ false)
        → (m : ℕ) × (suc d ≤ m * h) × (m * h < suc d + h)
    by_order n low high (inl e) = (n, ground arith, omega arith)
    by_order n low high (inr e) =
        let same : n * h ≡ d = ground arith in (suc n, grind arith, grind arith)

module _ {S : Type 0} (bucket : Bucket S) (codec : LeaseCodec)
    (reliable : IsReliable bucket codec) where
  -- The wakes of a loop at the given times, where nothing but its own attempts changes the bucket.
  unfoldable pub alone : List ℕ → SnapshotLeader → S → List (Wake S)
  alone [] l s = []
  alone (now ∷ later) l s =
      let (l', s') = try_acquire_leadership bucket codec now s l s in
      ticked now s ∷ alone later l' s'

  try-keeps :
      (now : ℕ) (before : S) (l : SnapshotLeader) (s : S)
      → l.has_meta_store ≡ true
      → let l' = (try_acquire_leadership bucket codec now before l s).0 in
        (l'.has_meta_store ≡ true) × (l'.node_id ≡ l.node_id) × (l'.ttl ≡ l.ttl)
  unfolding try_acquire_leadership
  try-keeps now before l s meta = rw meta (refl, refl, refl)

  on_acquired-true :
      (flag : Bool) (x : Result Bool) → on_acquired bucket codec flag x ≡ true → x ≡ ok true
  unfolding on_acquired
  on_acquired-true flag (err e) h = ground arith
  on_acquired-true flag (ok b) h = ground arith

  -- A leader's attempt leaves its own entry.
  leader-Holds :
      (now : ℕ) (l : SnapshotLeader) (s : S)
      → l.has_meta_store ≡ true
      → (try_acquire_leadership bucket codec now s l s).0.is_leader ≡ true
      → (r : ℕ) × Holds bucket codec snapshot_leader_key
          (record { node_id = l.node_id; timestamp = now })
          r
          (try_acquire_leadership bucket codec now s l s).1
  unfolding try_acquire_leadership
  leader-Holds now l s meta = rw meta (λ leads.
      acquire-Holds bucket codec snapshot_leader_key l.node_id (l.ttl / 1_000_000) now s s
        (on_acquired-true l.is_leader _ leads))

  -- Once the leader, a node stays it.
  stays_leader :
      (info : LockInfo) (r : ℕ) (times : List ℕ) (l : SnapshotLeader) (s : S)
      → Holds bucket codec snapshot_leader_key info r s
      → l.has_meta_store ≡ true
      → l.node_id ≡ info.node_id
      → l.is_leader ≡ true
      → (wait_for_tick bucket codec (alone times l s) l s).0.is_leader ≡ true
  unfolding wait_for_tick alone
  stays_leader info r [] l s h meta own leads = leads
  stays_leader info r (now ∷ later) l s h meta own leads =
      let leads' = becomes_leader bucket codec reliable info r now l s h meta (inl own) in
      let (r', h') = leader-Holds now l s meta leads' in
      let (meta', own', _) = try-keeps now s l s meta in
      stays_leader (record { node_id = l.node_id; timestamp = now }) r' later _ _ h' meta' own'
        leads'

  abbrev pub HasTimeFrom : ℕ → List ℕ → Type 0
  HasTimeFrom t [] = ⊥
  HasTimeFrom t (now ∷ later) = (t ≤ now) ⊎ HasTimeFrom t later

  leads_after :
      (info : LockInfo) (r : ℕ) (times : List ℕ) (l : SnapshotLeader) (s : S)
      → Holds bucket codec snapshot_leader_key info r s
      → l.has_meta_store ≡ true
      → HasTimeFrom (info.timestamp + l.ttl / 1_000_000) times
      → (wait_for_tick bucket codec (alone times l s) l s).0.is_leader ≡ true
  unfolding wait_for_tick alone
  leads_after info r [] l s h meta late = absurd late
  leads_after info r (now ∷ later) l s h meta late =
      let (meta', own', ttl') = try-keeps now s l s meta in
      elim (attempt-cases bucket codec reliable info r now l s h meta) [
        | inl leads ↦
            let (r', h') = leader-Holds now l s meta leads in
            stays_leader (record { node_id = l.node_id; timestamp = now }) r' later _ _ h' meta'
              own' leads
        | inr (young, other, held) ↦
            leads_after info r later _ _ held meta'
              (elim late [ inl old ↦ absurd (omega arith) | inr rest ↦ rw ttl' rest ])
      ]

  -- `n` ticks of a loop that starts at `start` nanoseconds, in milliseconds.
  abbrev pub tick_times : ℕ → ℕ → ℕ → List ℕ
  tick_times start heartbeat zero = []
  tick_times start heartbeat (suc n) =
      (start + heartbeat) / 1_000_000 ∷ tick_times (start + heartbeat) heartbeat n

  tick_times-late :
      (t start heartbeat n : ℕ)
      → t * 1_000_000 ≤ start + n * heartbeat
      → HasTimeFrom t (start / 1_000_000 ∷ tick_times start heartbeat n)
  tick_times-late t start heartbeat zero h = inl (omega arith)
  tick_times-late t start heartbeat (suc n) h =
      inr (tick_times-late t (start + heartbeat) heartbeat n (grind arith))

  -- The time at which a lease ends, in nanoseconds.
  abbrev pub end_of : LockInfo → SnapshotLeader → ℕ
  end_of info l = (info.timestamp + l.ttl / 1_000_000) * 1_000_000

  -- The loop of a node that has the bucket for itself, after `n` ticks.
  abbrev pub after_ticks : ℕ → ℕ → SnapshotLeader → S → SnapshotLeader
  after_ticks start n l s =
      let (l', s') = try_acquire_leadership bucket codec (start / 1_000_000) s l s in
      (election_loop bucket codec (start / 1_000_000) s
        (alone (tick_times start l.heartbeat n) l' s') l s).0

  takes_over_when :
      (start : ℕ) (l : SnapshotLeader) (info : LockInfo) (r : ℕ) (s : S)
      → Holds bucket codec snapshot_leader_key info r s
      → l.has_meta_store ≡ true
      → 0 < l.heartbeat
      → start ≤ end_of info l
      → (n : ℕ) × (start + n * l.heartbeat < end_of info l + l.heartbeat)
        × ((after_ticks start n l s).is_leader ≡ true)
  unfolding election_loop wait_for_tick alone
  takes_over_when start l info r s h meta beats before =
      let (n, low, high) = first_multiple (end_of info l - start) l.heartbeat beats in
      (
        n,
        omega arith,
        leads_after info r (start / 1_000_000 ∷ tick_times start l.heartbeat n) l s h meta (
            tick_times-late (info.timestamp + l.ttl / 1_000_000) start l.heartbeat n (omega arith)),
      )

  -- A node that starts its loop while the entry of another node, or of its own former run, is in the
  -- bucket, and that has the bucket for itself, is the leader after some number of ticks, before one
  -- heartbeat has passed since the end of that lease, on a bucket and an encoder that work.
  pub takes_over :
      (node_id ttl start : ℕ) (info : LockInfo) (r : ℕ) (s : S)
      → Holds bucket codec snapshot_leader_key info r s
      → let l = new_snapshot_leader node_id true ttl in
        start ≤ end_of info l
        → (n : ℕ) × (start + n * l.heartbeat < end_of info l + l.heartbeat)
          × ((after_ticks start n l s).is_leader ≡ true)
  takes_over node_id ttl start info r s h before =
      takes_over_when start (new_snapshot_leader node_id true ttl) info r s h
        (unfold new_snapshot_leader in refl) (heartbeat_pos node_id ttl) before
    where
      heartbeat_pos : (node_id ttl : ℕ) → 0 < (new_snapshot_leader node_id true ttl).heartbeat
      heartbeat_pos = λ node_id ttl. unfold new_snapshot_leader in ground arith
