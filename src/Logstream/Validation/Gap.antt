-- ===== src/Logstream/Validation/Gap.antt =====
-- `checkStreamGap` of logstream/schema_validation.go, which decides that the node must restart.
use harmonylite.Prelude.{
  All, ℕ, ◌≤◌, String, ◌≡◌, refl, ◌↔◌, false, List, [], ◌∷◌, arith, Result, ok, err,
}
use harmonylite.Logstream.Validation.{check_stream_gap}
use harmonylite.Logstream.ReplicationState.{ReplicationState, get}

-- The stream still has its entry with the node's saved sequence, or cannot be read.
abbrev pub IsCovered : ReplicationState → String × Result ℕ → Type 0
IsCovered rep (stream, err e) = Unit {0}
IsCovered rep (stream, ok first_seq) = first_seq ≤ get rep stream

-- No gap is reported exactly when every stream that can be read starts at or before the sequence
-- that the node has saved for it.
pub check_stream_gap_iff :
    (rep : ReplicationState) (streams : List (String × Result ℕ))
    → (check_stream_gap rep streams ≡ false) ↔ All (IsCovered rep) streams
unfolding check_stream_gap
check_stream_gap_iff rep [] = ((λ _. tt), (λ _. refl))
check_stream_gap_iff rep ((stream, err e) ∷ rest) =
    let (to, from) = check_stream_gap_iff rep rest in ((λ h. (tt, to h)), (λ h. from h.1))
check_stream_gap_iff rep ((stream, ok first_seq) ∷ rest) =
    ground (arith, check_stream_gap_iff rep rest)
