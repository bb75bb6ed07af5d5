-- ===== src/Logstream/Replicator/Saving.antt =====
-- `SaveSnapshot`, `ForceSaveSnapshot` and `IsSnapshotLeader` of logstream/replicator.go.
use harmonylite.Prelude.{
  ℕ, ◌≡◌, Bool, true, Option, none, some, arith, if◌then◌else◌, Result, Outcome, ok, err,
}

-- What a saving meets: whether the node is the leader (`none`: there is no election), the lease,
-- whether there are snapshots, what saving returns, and the time.
pub record Saving : Type 0 where
  pub leader : Option Bool
  pub lease : Result Bool
  pub has_snapshot : Bool
  pub save : Outcome
  pub now : ℕ

-- The time of the snapshot, if one was saved; it becomes `lastSnapshot`.
unfoldable pub force_save_snapshot : Saving → Option ℕ
force_save_snapshot io =
    if io.has_snapshot then (elim io.save [ err e ↦ none | ok _ ↦ some io.now ]) else none

unfoldable pub is_snapshot_leader : Option Bool → Bool
is_snapshot_leader none = true
is_snapshot_leader (some b) = b

unfoldable pub save_snapshot : Saving → Option ℕ
unfolding force_save_snapshot is_snapshot_leader
save_snapshot io =
    if is_snapshot_leader io.leader
    then (elim io.lease [
      | err e ↦ none
      | ok locked ↦ if locked then force_save_snapshot io else none
    ])
    else none

-- A snapshot is saved only by a node that is the leader, where leaders are elected, and holds the
-- lease, and then at the time of the saving.
pub save_snapshot-holder :
    (io : Saving) (t : ℕ)
    → save_snapshot io ≡ some t
    → (is_snapshot_leader io.leader ≡ true) × (io.lease ≡ ok true) × (t ≡ io.now)
unfolding save_snapshot force_save_snapshot
save_snapshot-holder io t h = ground arith
