-- ===== src/Logstream/SchemaRegistry/Published.antt =====
-- The schema states that nodes publish, and the check: logstream/schema_registry.go.
use harmonylite.Prelude.{
  All, All-map, ℕ, String, ◌≡◌, refl, sym, ap, ◌∙◌, subst, ◌↔◌, true, List, [], ◌∷◌, Result, ok,
}
use harmonylite.Logstream.SchemaRegistry.{
  Registry, StateCodec, Keys, keys, no_keys_found, failed, listed, NodeSchemaState,
  SchemaConsistencyReport, node_key, entry_at, gather, get_cluster_schema_state,
  check_cluster_schema_consistency, report,
}
use harmonylite.Logstream.SchemaRegistry.Consistency.{Agree, IsRange, report_consistent_iff}
use harmonylite.Logstream.SchemaRegistry.Gathered.{IsOwn, Reads, gathered_iff}
use harmonylite.Logstream.SchemaRegistry.Registered.{
  Lists, IsRegistry, AreApart, publish_all, publish_all-IsRegistry,
}

module _ {S : Type 0} (registry : Registry S) (codec : StateCodec) (show : ℕ → String) where
  get_cluster-ok :
      (ks : Keys) (entry : String → Result NodeSchemaState)
      → Lists ks
      → get_cluster_schema_state ks entry ≡ ok (gather entry (listed ks) [])
  unfolding get_cluster_schema_state gather
  get_cluster-ok (keys ks) entry h = refl
  get_cluster-ok no_keys_found entry h = refl
  get_cluster-ok (failed e) entry h = absurd h

  check-ok :
      (reorder : List (ℕ × NodeSchemaState) → List (ℕ × NodeSchemaState)) (ks : Keys)
      (entry : String → Result NodeSchemaState)
      → Lists ks
      → check_cluster_schema_consistency reorder ks entry
        ≡ ok (report reorder (gather entry (listed ks) []))
  unfolding check_cluster_schema_consistency
  check-ok reorder ks entry h = rw (get_cluster-ok ks entry h) refl

  both :
      {P Q R : NodeSchemaState → Type 0} (ps : List NodeSchemaState)
      → All P ps
      → All Q ps
      → ((p : NodeSchemaState) → P p → Q p → R p)
      → All R ps
  both [] a b f = tt
  both (p ∷ ps) (x, a) (y, b) f = (f p x y, both ps a b f)

  -- One hash for all published states, exactly if one for all gathered ones.
  gathered-Agree :
      (ps : List NodeSchemaState) (s : S)
      → IsRegistry registry codec show ps s
      → Agree (gather (entry_at registry codec show s) (listed (registry.keys_of s)) [])
        ↔ ((h : String) × All (λ p. p.schema_hash ≡ h) ps)
  gathered-Agree ps s v = (
    (λ (h, a). (
      h,
      both ps v.entries
          ((v.range (Reads entry key (Has h))).0 ((gathered_iff entry key (Has h) ks own).0 a))
          (λ p e r. r p e),
    )),
    (λ (h, a). (
      h,
      (gathered_iff entry key (Has h) ks own).1 (
          (v.range (Reads entry key (Has h))).1
            (both ps v.entries a (λ p e has state r. subst (Has h) (same p state e r) has))),
    )),
  )
    where
      entry : String → Result NodeSchemaState
      entry = entry_at registry codec show s

      key : ℕ → String
      key = node_key show

      ks : List String
      ks = listed (registry.keys_of s)

      Has : String → NodeSchemaState → Type 0
      Has h p = p.schema_hash ≡ h

      same :
          (p state : NodeSchemaState)
          → entry (key p.node_id) ≡ ok p
          → entry (key p.node_id) ≡ ok state
          → p ≡ state
      same p state e r = ok_inj (sym e ∙ r)
        where
          ok_inj : ok p ≡ ok state → p ≡ state
          ok_inj q = cc

      own : All (IsOwn entry key) ks
      own =
          (v.range (IsOwn entry key)).1
            (All-map _ _ ps (λ p e state r. ap (λ q. key q.node_id) (same p state e r)) v.entries)

  -- Nodes with different keys publish their states to an empty registry, each succeeds, and none of
  -- the entries is as old as the five minutes after which the bucket drops it. Then the check by any
  -- node gives a report, in whatever orders Go visits the map, and it says consistent exactly if all
  -- published hashes are one.
  pub published_consistent_iff :
      (reorder : List (ℕ × NodeSchemaState) → List (ℕ × NodeSchemaState)) (range : IsRange reorder)
      (ps : List NodeSchemaState) (s : S)
      → registry.keys_of s ≡ no_keys_found
      → AreApart registry codec show ps
      → registry.IsLive (publish_all registry codec show ps s).1
      → (publish_all registry codec show ps s).0 ≡ ok tt
      → let s' = (publish_all registry codec show ps s).1 in
        (rep : SchemaConsistencyReport) × (check_cluster_schema_consistency reorder
            (registry.keys_of s')
            (entry_at registry codec show s')
          ≡ ok rep)
        × ((rep.consistent ≡ true) ↔ ((h : String) × All (λ p. p.schema_hash ≡ h) ps))
  published_consistent_iff reorder range ps s empty apart live done =
      let v = publish_all-IsRegistry registry codec show ps s empty apart live done in
      let s' = (publish_all registry codec show ps s).1 in
      let states = gather (entry_at registry codec show s') (listed (registry.keys_of s')) [] in
      let (to, from) = report_consistent_iff reorder range states in
      let (there, back) = gathered-Agree ps s' v in
      (
        report reorder states,
        check-ok reorder (registry.keys_of s') (entry_at registry codec show s') v.lists,
        ((λ c. there (to c)), (λ a. from (back a))),
      )
