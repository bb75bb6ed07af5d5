-- ===== src/Logstream/SchemaRegistry/Consistency.antt =====
-- What `CheckClusterSchemaConsistency` of logstream/schema_registry.go reports.
use harmonylite.Prelude.{
  length, All, tests, Dict, ℕ, ◌<◌, String, ◌≡◌, refl, sym, subst, ◌≢◌, ◌↔◌, true, List, [], ◌∷◌,
  arith, lt→leb,
}
use harmonylite.Logstream.SchemaRegistry.{
  report, reference_hash, mismatches_of, is_empty, NodeSchemaState, SchemaMismatch,
}

-- All nodes have one hash.
abbrev pub Agree : List (ℕ × NodeSchemaState) → Type 0
Agree states = (h : String) × All (λ x. x.1.schema_hash ≡ h) states

no_mismatch_iff :
    (h : String) (states : List (ℕ × NodeSchemaState))
    → (is_empty (mismatches_of h states) ≡ true) ↔ All (λ x. x.1.schema_hash ≡ h) states
unfolding mismatches_of is_empty
no_mismatch_iff h [] = ((λ _. tt), (λ _. refl))
no_mismatch_iff h ((n, state) ∷ rest) = grind (tests, no_mismatch_iff h rest)

mismatch-differs :
    (h : String) (states : List (ℕ × NodeSchemaState))
    → All
        (λ (m : SchemaMismatch). (m.expected_hash ≡ h) × (m.actual_hash ≢ h))
        (mismatches_of h states)
unfolding mismatches_of
mismatch-differs h [] = tt
mismatch-differs h ((n, state) ∷ rest) = grind (tests, mismatch-differs h rest)

some_there : (xs : List (ℕ × NodeSchemaState)) → 1 < length xs → All (λ _. ⊥) xs → ⊥
some_there [] big n = omega (arith, big)
some_there (x ∷ xs) big n = n.0

-- Two ranges over the map visit the same entries.
abbrev pub IsRange : (List (ℕ × NodeSchemaState) → List (ℕ × NodeSchemaState)) → Type 1
IsRange reorder =
    (xs : List (ℕ × NodeSchemaState)) (Q : ℕ × NodeSchemaState → Type 0)
    → All Q xs ↔ All Q (reorder xs)

module _ (reorder : List (ℕ × NodeSchemaState) → List (ℕ × NodeSchemaState))
    (range : IsRange reorder) where
  reference-agree :
      (states : List (ℕ × NodeSchemaState)) (h : String)
      → 1 < length states
      → All (λ x. x.1.schema_hash ≡ h) (reorder states)
      → reference_hash (reorder states) ≡ h
  unfolding reference_hash
  reference-agree states h big a = by_order (reorder states) refl a
    where
      none_there : All (λ _. ⊥) states → reference_hash [] ≡ h
      none_there n = elim (some_there states big n) [ ]

      by_order :
          (ys : List (ℕ × NodeSchemaState))
          → reorder states ≡ ys
          → All (λ x. x.1.schema_hash ≡ h) ys
          → reference_hash ys ≡ h
      by_order [] e a = none_there ((range states (λ _. ⊥)).1 (subst (All (λ _. ⊥)) (sym e) tt))
      by_order ((n, s) ∷ ys) e a = a.0

  consistent_many :
      (states : Dict ℕ NodeSchemaState)
      → 1 < length states
      → report reorder states ≡ record {
        node_count = length states;
        consistent = is_empty (mismatches_of (reference_hash (reorder states)) states);
        mismatches = mismatches_of (reference_hash (reorder states)) states;
      }
  unfolding report
  consistent_many states big = rw (lt→leb (length states) 1 big) refl

  -- In whatever orders the map is visited, the report says consistent exactly when all nodes that
  -- could be read have one schema hash.
  pub report_consistent_iff :
      (states : Dict ℕ NodeSchemaState) → ((report reorder states).consistent ≡ true) ↔ Agree states
  report_consistent_iff [] = unfold report in ((λ _. ("", tt)), (λ _. refl))
  report_consistent_iff (x ∷ []) =
      unfold report in ((λ _. (x.1.schema_hash, (refl, tt))), (λ _. refl))
  report_consistent_iff (x ∷ y ∷ states) = rw (consistent_many (x ∷ y ∷ states) (omega arith)) (
    (λ e. (reference_hash (reorder (x ∷ y ∷ states)), (no_mismatch_iff _ (x ∷ y ∷ states)).0 e)),
    (λ (k, a). (no_mismatch_iff _ (x ∷ y ∷ states)).1 (chosen k a)),
  )
    where
      chosen :
          (k : String)
          → All (λ z. z.1.schema_hash ≡ k) (x ∷ y ∷ states)
          → All (λ z. z.1.schema_hash ≡ reference_hash (reorder (x ∷ y ∷ states))) (x ∷ y ∷ states)
      chosen k a =
          subst (λ j. All (λ z. z.1.schema_hash ≡ j) (x ∷ y ∷ states))
            (sym
              (reference-agree (x ∷ y ∷ states) k (omega arith) ((range (x ∷ y ∷ states) _).0 a)))
            a
