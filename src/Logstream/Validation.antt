-- ===== src/Logstream/Validation.antt =====
-- logstream/schema_validation.go: the check of an event's schema hash before it is applied, with
-- the pause while it does not match. Times are nanoseconds, and `none` is Go's zero time.
-- The replicator's mutex is held throughout a mismatch, so that the method is an atomic step.
-- Logging is left out, and so is `truncateHash`, which only logging calls.
pub mod Safety
pub mod Gap
use harmonylite.Prelude.{
  ◌≐◌, ℕ, ◌-◌, String, Bool, true, false, not, ◌&&◌, ◌||◌, Option, none, some, List, [], ◌∷◌, ltb,
  leb, if◌then◌else◌, Result, Outcome, ok, err, string_eq, nat_eq,
}
use harmonylite.Db.Event.{ChangeLogEvent}
use harmonylite.Db.SchemaCache.{SchemaCache, Compute, recompute}
use harmonylite.Logstream.ReplicationState.{ReplicationState, get}

abbrev pub schema_recompute_interval : ℕ
schema_recompute_interval = 300_000_000_000

-- The fields of `Replicator` that track a mismatch, and the schema cache of the database.
pub record Guard : Type 0 where
  pub schema_mismatch_at : Option ℕ
  pub last_recompute_at : Option ℕ
  pub schema_mismatch_metric : ℕ
  pub cache : SchemaCache

-- `retry` is the result `(true, nil)`, for which the message got `NakWithDelay`; `done` is
-- `(false, err)`; and `fatal` is `log.Fatal`.
pub data Verdict : Type 0 where
  retry fatal : Verdict
  done : Outcome → Verdict

-- What a call meets outside: the clock, the schema of the database, and the result of
-- `checkStreamGap`.
pub record Moment : Type 0 where
  pub now : ℕ
  pub compute : Compute
  pub gap : Bool

unfoldable pub reset_mismatch_state : Guard → Guard
reset_mismatch_state g = record g {
  schema_mismatch_at = none;
  last_recompute_at = none;
  schema_mismatch_metric = 0;
}

unfoldable pub is_schema_mismatch_paused : Guard → Bool
is_schema_mismatch_paused g = elim g.schema_mismatch_at [ none ↦ false | some _ ↦ true ]

-- `now.Sub(t) >= schemaRecomputeInterval`; since the zero time any interval has passed.
abbrev pub is_due : ℕ → Option ℕ → Bool
is_due now none = true
is_due now (some t) = leb schema_recompute_interval (now - t)

-- `event.SchemaHash == newHash || event.SchemaHash == prevHash`
abbrev pub matches : String → SchemaCache → Bool
matches h sc = h ≐ sc.schema_hash || h ≐ sc.previous_hash

module _ {D : Type 0} (replicate_event : ChangeLogEvent → D → Outcome × D) where
  apply : ChangeLogEvent → Guard → D → Verdict × (Guard × D)
  apply e g d = let (r, d') = replicate_event e d in (done r, (g, d'))

  -- The part that the first mismatch and a later recomputation share.
  pub after_recompute : Moment → ChangeLogEvent → Guard → D → Verdict × (Guard × D)
  unfolding apply reset_mismatch_state
  after_recompute m e g d =
      let (r, sc) = recompute m.compute g.cache in
      let g' = record g { cache = sc } in
      elim r [
        | err _ ↦ (retry, (g', d))
        | ok _ ↦
            if matches e.schema_hash sc
            then apply e (reset_mismatch_state g') d
            else (retry, (g', d))
      ]

  pub handle_schema_mismatch : Moment → ChangeLogEvent → Guard → D → Verdict × (Guard × D)
  unfolding after_recompute
  handle_schema_mismatch m e g d = elim g.schema_mismatch_at [
    | none ↦
        after_recompute m e
          (record g {
            schema_mismatch_at = some m.now;
            last_recompute_at = some m.now;
            schema_mismatch_metric = 1;
          })
          d
    | some t ↦
        if is_due m.now g.last_recompute_at
        then (let g' = record g { last_recompute_at = some m.now } in
            if m.gap then (fatal, (g', d)) else after_recompute m e g' d)
        else (retry, (g, d))
  ]

  -- `ValidateAndReplicateWithSchema`
  unfoldable pub validate_and_replicate_with_schema :
      Moment → ChangeLogEvent → Guard → D → Verdict × (Guard × D)
  unfolding handle_schema_mismatch apply reset_mismatch_state
  validate_and_replicate_with_schema m e g d =
      if not (e.schema_hash ≐ "") && not (matches e.schema_hash g.cache)
      then handle_schema_mismatch m e g d
      else apply e (reset_mismatch_state g) d

-- `checkStreamGap`: a stream whose state cannot be read is passed over. `first_seq` is what
-- `StreamInfo` returns for each shard's stream.
unfoldable pub check_stream_gap : ReplicationState → List (String × Result ℕ) → Bool
check_stream_gap rep [] = false
check_stream_gap rep ((stream, err _) ∷ rest) = check_stream_gap rep rest
check_stream_gap rep ((stream, ok first_seq) ∷ rest) =
    ltb (get rep stream) first_seq || check_stream_gap rep rest
