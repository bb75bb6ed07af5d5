-- ===== src/Logstream/SnapshotLeader.antt =====
-- logstream/snapshot_leader.go: the election of the node that uploads snapshots. Durations are
-- nanoseconds. What the loop's `select` takes is an argument, and the logging is left out.
pub mod Single
pub mod Takeover
pub mod Ticks
use harmonylite.Prelude.{
  ℕ, ◌*◌, ◌/◌, String, Bool, true, false, List, [], ◌∷◌, ltb, ◌==◌, if◌then◌else◌, Result, ok, err,
}
use harmonylite.Logstream.MetaStore.{Bucket, LeaseCodec, acquire_lease}

abbrev pub second : ℕ
second = 1_000_000_000

abbrev pub default_leader_ttl : ℕ
default_leader_ttl = 30 * second

abbrev pub snapshot_leader_key : String
snapshot_leader_key = "snapshot-leader"

pub record SnapshotLeader : Type 0 where
  pub node_id : ℕ
  pub has_meta_store : Bool
  pub ttl : ℕ
  pub heartbeat : ℕ
  pub is_leader : Bool

-- `NewSnapshotLeader`
unfoldable pub new_snapshot_leader : ℕ → Bool → ℕ → SnapshotLeader
new_snapshot_leader node_id has_meta_store ttl =
    let ttl' = if ttl == 0 then default_leader_ttl else ttl in
    let heartbeat = ttl' / 3 in
    record {
      node_id = node_id;
      has_meta_store = has_meta_store;
      ttl = ttl';
      heartbeat = if ltb heartbeat second then second else heartbeat;
      is_leader = false;
    }

-- `GetLeaderTTL`, of the configured milliseconds.
unfoldable pub get_leader_ttl : ℕ → ℕ
get_leader_ttl configured = if ltb 0 configured then configured * 1_000_000 else default_leader_ttl

-- `Stop`, after the loop has ended.
unfoldable pub stop : SnapshotLeader → SnapshotLeader
stop l = if l.is_leader then record l { is_leader = false } else l

-- What the `select` of the loop takes: a tick, with its time and the bucket as it is read then, or
-- the closed channel of `Stop`.
pub data Wake (S : Type 0) : Type 0 where
  ticked : ℕ → S → Wake S
  stopped : Wake S

module _ {S : Type 0} (bucket : Bucket S) (codec : LeaseCodec) where
  -- The flag after an attempt: an error takes it from a leader and changes nothing otherwise.
  pub on_acquired : Bool → Result Bool → Bool
  on_acquired was_leader (err e) = if was_leader then false else was_leader
  on_acquired was_leader (ok acquired) = if acquired then true else false

  -- `tryAcquireLeadership` at `now` milliseconds.
  unfoldable pub try_acquire_leadership : ℕ → S → SnapshotLeader → S → SnapshotLeader × S
  unfolding on_acquired
  try_acquire_leadership now before l s =
      if l.has_meta_store
      then (let (r, s') =
            acquire_lease bucket codec snapshot_leader_key l.node_id (l.ttl / 1_000_000) now before
              s in
          (record l { is_leader = on_acquired l.is_leader r }, s'))
      else (l, s)

  pub wait_for_tick : List (Wake S) → SnapshotLeader → S → SnapshotLeader × S
  wait_for_tick [] l s = (l, s)
  wait_for_tick (stopped ∷ _) l s = (l, s)
  wait_for_tick (ticked now before ∷ rest) l s =
      let (l', s') = try_acquire_leadership now before l s in wait_for_tick rest l' s'

  -- `electionLoop`: an attempt at once, and one at each tick.
  unfoldable pub election_loop : ℕ → S → List (Wake S) → SnapshotLeader → S → SnapshotLeader × S
  unfolding wait_for_tick
  election_loop now before wakes l s =
      let (l', s') = try_acquire_leadership now before l s in wait_for_tick wakes l' s'
