-- ===== src/Logstream/Validation/Safety.antt =====
-- What the schema check of logstream/schema_validation.go lets through.
use harmonylite.Prelude.{tests, ◌≡◌, ◌⊎◌, true, false, arith, Outcome}
use harmonylite.Logstream.Validation.{
  retry, fatal, done, Verdict, validate_and_replicate_with_schema, Guard, is_schema_mismatch_paused,
  Moment, done, matches, after_recompute, handle_schema_mismatch,
}
use harmonylite.Db.SchemaCache.{SchemaCache, recompute}
use harmonylite.Db.Event.{ChangeLogEvent}

-- The hash is missing, or the cache knows it.
abbrev pub IsAccepted : ChangeLogEvent → SchemaCache → Type 0
IsAccepted e sc =
    (e.schema_hash ≡ "") ⊎ (e.schema_hash ≡ sc.schema_hash) ⊎ (e.schema_hash ≡ sc.previous_hash)

-- What each verdict says of the state and of the database.
abbrev pub Sound :
    {D : Type 0}
    → (ChangeLogEvent → D → Outcome × D)
    → ChangeLogEvent
    → D
    → Verdict × (Guard × D)
    → Type 0
Sound replicate_event e d (retry, (g, d')) = (d' ≡ d) × (is_schema_mismatch_paused g ≡ true)
Sound replicate_event e d (fatal, (g, d')) = (d' ≡ d) × (is_schema_mismatch_paused g ≡ true)
Sound replicate_event e d (done r, (g, d')) =
    IsAccepted e g.cache
    × (r ≡ (replicate_event e d).0)
    × (d' ≡ (replicate_event e d).1)
    × (is_schema_mismatch_paused g ≡ false)

matches-IsAccepted :
    (e : ChangeLogEvent) (sc : SchemaCache) → matches e.schema_hash sc ≡ true → IsAccepted e sc
matches-IsAccepted e sc h = grind tests

module _ {D : Type 0} (replicate_event : ChangeLogEvent → D → Outcome × D) where
  after_recompute-Sound :
      (m : Moment) (e : ChangeLogEvent) (g : Guard) (d : D)
      → is_schema_mismatch_paused g ≡ true
      → Sound replicate_event e d (after_recompute replicate_event m e g d)
  unfolding after_recompute is_schema_mismatch_paused
  after_recompute-Sound m e g d p =
      ground (arith, matches-IsAccepted e (recompute m.compute g.cache).1)

  mismatch-Sound :
      (m : Moment) (e : ChangeLogEvent) (g : Guard) (d : D)
      → Sound replicate_event e d (handle_schema_mismatch replicate_event m e g d)
  unfolding handle_schema_mismatch is_schema_mismatch_paused
  mismatch-Sound m e g d = ground (arith, matches-IsAccepted e (recompute m.compute g.cache).1)

  -- An event is applied only if it has no hash, or has the current or the previous hash of the cache
  -- as the call leaves it; then the pause is over, and the result and the database are those of the
  -- replication. In every other case the database is left alone, and replication is paused.
  pub validate-Sound :
      (m : Moment) (e : ChangeLogEvent) (g : Guard) (d : D)
      → Sound replicate_event e d (validate_and_replicate_with_schema replicate_event m e g d)
  unfolding validate_and_replicate_with_schema is_schema_mismatch_paused
  validate-Sound m e g d = grind (tests, matches-IsAccepted e g.cache, mismatch-Sound m e g d)
