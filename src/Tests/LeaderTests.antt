-- ===== src/Tests/LeaderTests.antt =====
-- Renewed leases and lapsed leaderships on a bucket with one key.
use harmonylite.Prelude.{
  ℕ, suc, ◌+◌, ◌*◌, ◌<◌, ◌≡◌, refl, inl, inr, true, false, Option, none, some, List, [], ◌∷◌, arith,
  Result, ok,
}
use harmonylite.Tests.Codecs.{toy_lease_codec}
use harmonylite.Tests.Stores.{OneKey, toy_bucket}
use harmonylite.Logstream.MetaStore.{acquire_lease}
use harmonylite.Logstream.MetaStore.Free.{IsReliable}
use harmonylite.Logstream.MetaStore.Refreshing.{Turn, renew}
use harmonylite.Logstream.MetaStore.Refreshing.Kept.{IsKept, renewal_keeps}
use harmonylite.Logstream.SnapshotLeader.{
  SnapshotLeader, new_snapshot_leader, second, try_acquire_leadership,
}
use harmonylite.Logstream.SnapshotLeader.Single.{Attempt, run}
use harmonylite.Logstream.SnapshotLeader.Takeover.{HasLeader, some_leader}
use harmonylite.Logstream.SnapshotLeader.Ticks.{takes_over, after_ticks, end_of}

update_same_key :
    (v w : List ℕ) (r : ℕ) (s : OneKey)
    → ok s.0 ≡ ok (some (v, r))
    → (m : ℕ) × ((toy_bucket.update "" w r s).0 ≡ ok m)
update_same_key v w r (none, n) h = absurd (no_entry h)
  where
    no_entry : ¬ (◌≡◌ {A = Result (Option (List ℕ × ℕ))} (ok none) (ok (some (v, r))))
    no_entry q = cc
update_same_key v w r (some (u, k), n) h = (suc n, ground arith)

reliable : IsReliable toy_bucket toy_lease_codec
reliable = record {
  update_same = λ k v w r s h. update_same_key v w r s h;
  serializes = λ i. (i.node_id ∷ i.timestamp ∷ [], refl);
}

abbrev entry : ℕ → ℕ → ℕ → OneKey
entry node_id timestamp revision = (some (node_id ∷ timestamp ∷ [], revision), revision)

abbrev turns : List (Turn OneKey)
turns =
    record {
      rivals = record { node_id = 2; now = 2000; before = entry 1 1000 4 } ∷ [];
      now = 6000;
      before = entry 1 1000 4;
      is_done = false;
    }
    ∷ record {
      rivals = record { node_id = 3; now = 15_999; before = entry 1 6000 5 } ∷ [];
      now = 15_999;
      before = entry 1 6000 5;
      is_done = true;
    }
    ∷ []

renewal_keeps_example :
    IsKept toy_bucket toy_lease_codec "snapshot" 10_000 reliable 1
      (renew toy_bucket toy_lease_codec "snapshot" 10_000 1 turns (entry 1 1000 4))
unfolding renew acquire_lease
renewal_keeps_example =
    renewal_keeps toy_bucket toy_lease_codec "snapshot" 10_000 reliable 1 1000 turns
      (entry 1 1000 4) (4, (1 ∷ 1000 ∷ [], refl, refl))
      ((omega arith, omega arith, refl, tt), refl, ((omega arith, omega arith, refl, tt), refl, tt))

abbrev node : ℕ → SnapshotLeader
node n = new_snapshot_leader n true (30 * second)

abbrev attempts : List (Attempt toy_bucket toy_lease_codec)
attempts = ((node 2, 2000), entry 1 1000 4) ∷ ((node 3, 31_000), entry 1 1000 4) ∷ []

some_leader_example :
    HasLeader toy_bucket toy_lease_codec reliable
      (run toy_bucket toy_lease_codec attempts (entry 1 1000 4)).0
unfolding new_snapshot_leader try_acquire_leadership acquire_lease
some_leader_example =
    some_leader toy_bucket toy_lease_codec reliable (record { node_id = 1; timestamp = 1000 }) 4
      attempts (entry 1 1000 4) (1 ∷ 1000 ∷ [], refl, refl) (refl, refl, (refl, refl, tt))
      (inr (inl (omega arith)))

takes_over_example :
    (n : ℕ) × (2_000_000_000 + n * (node 2).heartbeat
      < end_of toy_bucket toy_lease_codec reliable
          (record { node_id = 1; timestamp = 1000 })
          (node 2)
        + (node 2).heartbeat)
    × ((after_ticks toy_bucket toy_lease_codec reliable 2_000_000_000 n
          (node 2)
          (entry 1 1000 4)).is_leader
        ≡ true)
unfolding new_snapshot_leader
takes_over_example =
    takes_over toy_bucket toy_lease_codec reliable 2 (30 * second) 2_000_000_000
      (record { node_id = 1; timestamp = 1000 }) 4 (entry 1 1000 4) (1 ∷ 1000 ∷ [], refl, refl)
      (omega arith)
