-- ===== src/Node/Status/Groups.antt =====
-- The verdict and the groups that `printClusterSchemaStatus` of harmonylite.go prints.
use harmonylite.Prelude.{
  length, All, All-map, Dict, ◌≐◌, lookup-insert, ≐_refl, lookup, insert, ℕ, suc, ◌+◌, ◌≤◌, String,
  ◌≡◌, refl, sym, ap, ◌∙◌, ◌≢◌, ◌↔◌, ◌⊎◌, inl, inr, Bool, true, false, Option, none, some, List, [],
  ◌∷◌, ◌++◌, map, arith, eq_iff, if◌then◌else◌, Bool-cases, ok, string_eq, nat_eq,
}
use harmonylite.Logstream.SchemaRegistry.{
  NodeSchemaState, SchemaConsistencyReport, SchemaMismatch, report,
}
use harmonylite.Logstream.SchemaRegistry.Consistency.{IsRange, report_consistent_iff}
use harmonylite.Node.Status.{
  group_nodes, hash_groups, Line, consistent_line, group_line, print_details, print_mismatches,
  mismatch_of, details_title, print_cluster_schema_status, preview,
}

-- The groups have one key, or there are none.
abbrev HasOnly : String → Dict String (List ℕ) → Type 0
HasOnly h [] = Unit
HasOnly h ((k, ns) ∷ []) = k ≡ h
HasOnly h (_ ∷ _ ∷ _) = ⊥

insert-HasOnly :
    (h : String) (ns : List ℕ) (g : Dict String (List ℕ)) → HasOnly h g → HasOnly h (insert h ns g)
unfolding insert
insert-HasOnly h ns [] o = refl
insert-HasOnly h ns ((k, ms) ∷ []) o = rw (o, ≐_refl h) refl
insert-HasOnly h ns (_ ∷ _ ∷ _) o = absurd o

group_nodes-HasOnly :
    (h : String) (states : List (ℕ × NodeSchemaState)) (g : Dict String (List ℕ))
    → All (λ x. x.1.schema_hash ≡ h) states
    → HasOnly h g
    → HasOnly h (group_nodes states g)
unfolding group_nodes
group_nodes-HasOnly h [] g a o = o
group_nodes-HasOnly h ((n, state) ∷ rest) g (same, a) o =
    group_nodes-HasOnly h rest _ a (rw same (insert-HasOnly h _ g o))

HasOnly-le : (h : String) (g : Dict String (List ℕ)) → HasOnly h g → length g ≤ 1
HasOnly-le h [] o = omega arith
HasOnly-le h (x ∷ []) o = omega arith
HasOnly-le h (_ ∷ _ ∷ _) o = absurd o

-- The hash has a group.
abbrev HasKey : Dict String (List ℕ) → String → Type 0
HasKey g h = lookup h g ≢ none

insert-HasKey :
    (h k : String) (ns : List ℕ) (g : Dict String (List ℕ))
    → (k ≡ h) ⊎ HasKey g h
    → HasKey (insert k ns g) h
insert-HasKey h k ns g o q = elim (Bool-cases (k ≐ h)) [
  | inl e ↦ absurd (never (sym (lookup-insert k h ns g ∙ rw e refl) ∙ q))
  | inr e ↦ elim o [
    | inl same ↦ absurd (apart e same)
    | inr there ↦ there (sym (lookup-insert k h ns g ∙ rw e refl) ∙ q)
  ]
]
  where
    never : ¬ (some ns ≡ none)
    never r = cc

    apart : (k ≐ h) ≡ false → k ≡ h → ⊥
    apart e same = ground (arith, e, eq_iff k h)

group_nodes-kept :
    (h : String) (states : List (ℕ × NodeSchemaState)) (g : Dict String (List ℕ))
    → HasKey g h
    → HasKey (group_nodes states g) h
unfolding group_nodes
group_nodes-kept h [] g o = o
group_nodes-kept h ((n, state) ∷ rest) g o =
    group_nodes-kept h rest _ (insert-HasKey h state.schema_hash _ g (inr o))

group_nodes-HasKey :
    (states : List (ℕ × NodeSchemaState)) (g : Dict String (List ℕ))
    → All (λ x. HasKey (group_nodes states g) x.1.schema_hash) states
unfolding group_nodes
group_nodes-HasKey [] g = tt
group_nodes-HasKey ((n, state) ∷ rest) g = (
  group_nodes-kept state.schema_hash rest _
      (insert-HasKey state.schema_hash state.schema_hash _ g (inl refl)),
  group_nodes-HasKey rest _,
)

one_key :
    (g : Dict String (List ℕ)) → length g ≤ 1 → (h : String) × ((k : String) → HasKey g k → h ≡ k)
unfolding lookup
one_key [] le = ("", λ k o. absurd (o refl))
one_key ((h, ns) ∷ []) le = (
  h,
  λ k o. elim (Bool-cases (h ≐ k)) [ inl e ↦ (eq_iff h k).0 e | inr e ↦ absurd (o (rw e refl)) ],
)
one_key (_ ∷ _ ∷ _) le = absurd (omega arith)

-- The report says consistent exactly if its states fall into at most one group.
one_group :
    (reorder grouping : List (ℕ × NodeSchemaState) → List (ℕ × NodeSchemaState))
    → IsRange reorder
    → IsRange grouping
    → (states : Dict ℕ NodeSchemaState)
    → ((report reorder states).consistent ≡ true) ↔ (length (hash_groups (grouping states)) ≤ 1)
one_group reorder grouping range range' states =
    let (to, from) = report_consistent_iff reorder range states in
    (
      (λ c.
          let (h, a) = to c in
          HasOnly-le h (hash_groups (grouping states))
            (group_nodes-HasOnly h (grouping states) [] ((range' states _).0 a) tt)),
      (λ le.
          let (h, same) = one_key (hash_groups (grouping states)) le in
          from (
            h,
            (range' states _).1 (
                All-map _ _ (grouping states) (λ x o. sym (same x.1.schema_hash o))
                  (group_nodes-HasKey (grouping states) [])),
          )),
    )

-- What a report says of the cluster.
abbrev pub verdict : List Line → Option Bool
verdict [] = none
verdict (consistent_line b ∷ ls) = some b
verdict (_ ∷ ls) = verdict ls

abbrev pub is_group : Line → Bool
is_group (group_line h ns) = true
is_group _ = false

-- How many groups of nodes are printed.
unfoldable pub group_count : List Line → ℕ
group_count [] = 0
group_count (l ∷ ls) = let rest = group_count ls in if is_group l then suc rest else rest

group_count-append : (a b : List Line) → group_count (a ++ b) ≡ group_count a + group_count b
unfolding group_count
group_count-append [] b = omega arith
group_count-append (l ∷ a) b = ground (arith, group_count-append a b)

group_count-groups :
    (show : String × List ℕ → String) (gs : Dict String (List ℕ))
    → group_count (map (λ (g : String × List ℕ). group_line (show g) g.1) gs) ≡ length gs
unfolding group_count
group_count-groups show [] = refl
group_count-groups show (g ∷ gs) = ap suc (group_count-groups show gs)

no_group_in_details : (states : List (ℕ × NodeSchemaState)) → group_count (print_details states) ≡ 0
unfolding group_count print_details
no_group_in_details [] = refl
no_group_in_details ((n, state) ∷ rest) = no_group_in_details rest

no_group_in_mismatches : (r : SchemaConsistencyReport) → group_count (print_mismatches r) ≡ 0
unfolding print_mismatches group_count
no_group_in_mismatches r = elim (Bool-cases r.consistent) [
  | inl e ↦ rw e refl
  | inr e ↦ rw e (listed r.mismatches)
]
  where
    listed : (ms : List SchemaMismatch) → group_count (map mismatch_of ms) ≡ 0
    listed [] = refl
    listed (m ∷ ms) = listed ms

module _ (reorder grouping detailing : List (ℕ × NodeSchemaState) → List (ℕ × NodeSchemaState))
    (listing : Dict String (List ℕ) → Dict String (List ℕ)) where
  -- The lines that are printed of these states, of which the first is `x`.
  abbrev pub printed : ℕ × NodeSchemaState → Dict ℕ NodeSchemaState → List Line
  printed x states =
      print_cluster_schema_status grouping detailing listing (ok (x ∷ states))
        (ok (report reorder (x ∷ states)))

  group_count-printed :
      (x : ℕ × NodeSchemaState) (states : Dict ℕ NodeSchemaState)
      → group_count (printed x states) ≡ length (listing (hash_groups (grouping (x ∷ states))))
  unfolding print_cluster_schema_status group_count
  group_count-printed x states =
      group_count-append
        (map (λ (g : String × List ℕ). group_line (preview 16 g.0) g.1)
          (listing (hash_groups (grouping (x ∷ states)))))
        (details_title
          ∷ (print_details (detailing (x ∷ states))
              ++ print_mismatches (report reorder (x ∷ states))))
      ∙ omega (
        arith,
        group_count-groups (λ g. preview 16 g.0) (listing (hash_groups (grouping (x ∷ states)))),
        group_count-append (print_details (detailing (x ∷ states)))
            (print_mismatches (report reorder (x ∷ states))),
        no_group_in_details (detailing (x ∷ states)),
        no_group_in_mismatches (report reorder (x ∷ states)),
      )

  verdict-printed :
      (x : ℕ × NodeSchemaState) (states : Dict ℕ NodeSchemaState)
      → verdict (printed x states) ≡ some ((report reorder (x ∷ states)).consistent)
  unfolding print_cluster_schema_status
  verdict-printed x states = refl

  -- What is printed for a cluster with some state says consistent exactly if it lists at most one group
  -- of nodes, in whatever orders Go visits the maps, if the registry answers the same twice.
  pub consistent_iff_one_group :
      IsRange reorder
      → IsRange grouping
      → ((gs : Dict String (List ℕ)) → length (listing gs) ≡ length gs)
      → (x : ℕ × NodeSchemaState) (states : Dict ℕ NodeSchemaState)
      → (verdict (printed x states) ≡ some true) ↔ (group_count (printed x states) ≤ 1)
  consistent_iff_one_group range range' all x states =
      let (to, from) = one_group reorder grouping range range' (x ∷ states) in
      rw
        (
          verdict-printed x states,
          group_count-printed x states,
          all (hash_groups (grouping (x ∷ states))),
        )
        ((λ e. to (some_inj e)), (λ le. ap some (from le)))
    where
      some_inj : {b c : Bool} → some b ≡ some c → b ≡ c
      some_inj e = cc
