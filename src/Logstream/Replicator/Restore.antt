-- ===== src/Logstream/Replicator/Restore.antt =====
-- `RestoreSnapshot` of logstream/replicator.go beside `checkStreamGap` of
-- logstream/schema_validation.go.
use harmonylite.Prelude.{
  All, ℕ, String, ◌≡◌, refl, true, false, some, List, [], ◌∷◌, arith, if◌then◌else◌, Result,
  Outcome, ok,
}
use harmonylite.Logstream.Replicator.{restore_snapshot}
use harmonylite.Logstream.Validation.{check_stream_gap}
use harmonylite.Logstream.ReplicationState.{ReplicationState}

-- Every stream can be read.
abbrev pub AreReadable : List (String × Result ℕ) → Type 0
AreReadable = All (λ p. (n : ℕ) × (p.1 ≡ ok n))

-- Where every stream can be read, a node with snapshots restores one at its start exactly if
-- `checkStreamGap` reports a gap on the same sequences, and then the result is the restoration's.
pub restore_iff_gap :
    (restore : Outcome) (rep : ReplicationState) (streams : List (String × Result ℕ))
    → AreReadable streams
    → restore_snapshot (some restore) rep streams
      ≡ (if check_stream_gap rep streams then (restore, true) else (ok tt, false))
unfolding restore_snapshot check_stream_gap
restore_iff_gap restore rep [] r = refl
restore_iff_gap restore rep ((stream, x) ∷ rest) ((n, e), r) =
    rw e ground (arith, restore_iff_gap restore rep rest r)
