-- ===== src/Logstream/SchemaRegistry/Registered.antt =====
-- The registry's bucket after nodes published their schema states: logstream/schema_registry.go.
use harmonylite.Prelude.{
  All, ◌≐◌, ≐_refl, ℕ, String, ◌≡◌, refl, sym, subst, ◌≢◌, ◌↔◌, inl, inr, Bool, true, false, List,
  [], ◌∷◌, eq_iff, if◌then◌else◌, Bool-cases, Result, ◌>>=◌, Outcome, ok, err, string_eq, nat_eq,
}
use harmonylite.Logstream.SchemaRegistry.{
  Registry, StateCodec, Keys, keys, no_keys_found, failed, listed, NodeSchemaState, node_key,
  publish_schema_state, put_state, entry_at,
}

-- The keys could be listed.
abbrev pub Lists : Keys → Type 0
Lists (keys ks) = Unit
Lists no_keys_found = Unit
Lists (failed e) = ⊥

module _ {S : Type 0} (registry : Registry S) (codec : StateCodec) (show : ℕ → String) where
  -- What a node published is what is read at its key, and at other keys is what was there.
  entry_at-publish :
      (state : NodeSchemaState) (k : String) (s : S)
      → registry.IsLive (publish_schema_state registry codec show state s).1
      → (publish_schema_state registry codec show state s).0 ≡ ok tt
      → entry_at registry codec show (publish_schema_state registry codec show state s).1 k
        ≡ (if node_key show state.node_id ≐ k then ok state else entry_at registry codec show s k)
  unfolding publish_schema_state entry_at put_state
  entry_at-publish state k s live = by_bytes (codec.marshal state) refl live
    where
      by_test :
          (bytes : List ℕ) (b : Bool)
          → codec.unmarshal bytes ≡ ok state
          → ((if b then ok bytes else registry.get k s) >>= codec.unmarshal)
            ≡ (if b then ok state else registry.get k s >>= codec.unmarshal)
      by_test bytes true q = q
      by_test bytes false q = refl

      by_bytes :
          (x : Result (List ℕ))
          → codec.marshal state ≡ x
          → registry.IsLive (put_state registry codec show state s x).1
          → (put_state registry codec show state s x).0 ≡ ok tt
          → (registry.get k (put_state registry codec show state s x).1 >>= codec.unmarshal) ≡ (
              if node_key show state.node_id ≐ k
              then ok state
              else registry.get k s >>= codec.unmarshal)
      by_bytes (err e) q l h = cc
      by_bytes (ok bytes) q l h =
          rw (registry.get-put (node_key show state.node_id) k bytes s l h) (
            by_test bytes (node_key show state.node_id ≐ k) (codec.unmarshal-marshal state bytes q))

  keys_of-publish :
      (state : NodeSchemaState) (s : S)
      → registry.IsLive (publish_schema_state registry codec show state s).1
      → (publish_schema_state registry codec show state s).0 ≡ ok tt
      → (ks : List String) × (registry.keys_of (publish_schema_state registry codec show state s).1
          ≡ keys ks)
        × ((Q : String → Type 0)
            → All Q ks ↔ (Q (node_key show state.node_id) × All Q (listed (registry.keys_of s))))
  unfolding publish_schema_state put_state
  keys_of-publish state s live = by_bytes (codec.marshal state) live
    where
      by_bytes :
          (x : Result (List ℕ))
          → registry.IsLive (put_state registry codec show state s x).1
          → (put_state registry codec show state s x).0 ≡ ok tt
          → (ks : List String) × (registry.keys_of (put_state registry codec show state s x).1
              ≡ keys ks)
            × ((Q : String → Type 0)
                → All Q ks
                  ↔ (Q (node_key show state.node_id) × All Q (listed (registry.keys_of s))))
      by_bytes (err e) l h = cc
      by_bytes (ok bytes) l h = registry.keys_of-put (node_key show state.node_id) bytes s l h

  -- The bucket has these states, each at its node's key, and no others.
  pub record IsRegistry (states : List NodeSchemaState) (s : S) : Type 1 where
    pub lists : Lists (registry.keys_of s)
    pub entries : All (λ p. entry_at registry codec show s (node_key show p.node_id) ≡ ok p) states
    pub range :
        (Q : String → Type 0)
        → All Q (listed (registry.keys_of s)) ↔ All (λ p. Q (node_key show p.node_id)) states

  -- No two of the states are of nodes with one key.
  abbrev pub AreApart : List NodeSchemaState → Type 0
  AreApart [] = Unit
  AreApart (p ∷ ps) = All (λ q. node_key show p.node_id ≢ node_key show q.node_id) ps × AreApart ps

  -- The nodes publish one after the other, until one fails.
  unfoldable pub publish_all : List NodeSchemaState → S → Outcome × S
  publish_all [] s = (ok tt, s)
  publish_all (p ∷ ps) s =
      let (r, s') = publish_all ps s in
      elim r [ err e ↦ (err e, s') | ok _ ↦ publish_schema_state registry codec show p s' ]

  kept_entries :
      (p : NodeSchemaState) (qs : List NodeSchemaState) (s : S)
      → registry.IsLive (publish_schema_state registry codec show p s).1
      → (publish_schema_state registry codec show p s).0 ≡ ok tt
      → All (λ q. node_key show p.node_id ≢ node_key show q.node_id) qs
      → All (λ q. entry_at registry codec show s (node_key show q.node_id) ≡ ok q) qs
      → All
          (λ q.
            entry_at registry codec show
              (publish_schema_state registry codec show p s).1
              (node_key show q.node_id)
            ≡ ok q)
          qs
  kept_entries p [] s live done apart there = tt
  kept_entries p (q ∷ qs) s live done (ne, apart) (here, there) =
      let other : (node_key show p.node_id ≐ node_key show q.node_id) ≡ false =
        elim (Bool-cases (node_key show p.node_id ≐ node_key show q.node_id)) [
          | inl e ↦ absurd (ne ((eq_iff _ _).0 e))
          | inr e ↦ e
        ] in
      (
        rw (entry_at-publish p (node_key show q.node_id) s live done, other) here,
        kept_entries p qs s live done apart there,
      )

  publish-IsRegistry :
      (p : NodeSchemaState) (ps : List NodeSchemaState) (s : S)
      → IsRegistry ps s
      → All (λ q. node_key show p.node_id ≢ node_key show q.node_id) ps
      → registry.IsLive (publish_schema_state registry codec show p s).1
      → (publish_schema_state registry codec show p s).0 ≡ ok tt
      → IsRegistry (p ∷ ps) (publish_schema_state registry codec show p s).1
  publish-IsRegistry p ps s v apart live done =
      let (ks, e, same) = keys_of-publish p s live done in
      record {
        lists = subst Lists (sym e) tt;
        entries = (here, kept_entries p ps s live done apart v.entries);
        range = λ Q.
            subst (λ x. All Q (listed x) ↔ All (λ q. Q (node_key show q.node_id)) (p ∷ ps)) (sym e)
              (
                (λ a. let (h, t) = (same Q).0 a in (h, (v.range Q).0 t)),
                (λ (h, t). (same Q).1 (h, (v.range Q).1 t)),
              );
      }
    where
      here :
          entry_at registry codec show
            (publish_schema_state registry codec show p s).1
            (node_key show p.node_id)
          ≡ ok p
      here =
          rw
            (
              entry_at-publish p (node_key show p.node_id) s live done,
              ≐_refl (node_key show p.node_id),
            )
            refl

  pub publish_all-IsRegistry :
      (ps : List NodeSchemaState) (s : S)
      → registry.keys_of s ≡ no_keys_found
      → AreApart ps
      → registry.IsLive (publish_all ps s).1
      → (publish_all ps s).0 ≡ ok tt
      → IsRegistry ps (publish_all ps s).1
  unfolding publish_all publish_schema_state put_state
  publish_all-IsRegistry [] s empty apart live done = record {
    lists = subst Lists (sym empty) tt;
    entries = tt;
    range = λ Q.
        subst
          (λ x. All Q (listed x) ↔ All {A = NodeSchemaState} (λ q. Q (node_key show q.node_id)) [])
          (sym empty) ((λ _. tt), (λ _. tt));
  }
  publish_all-IsRegistry (p ∷ ps) s empty (ne, apart) live done =
      by_result (publish_all ps s) (publish_all-IsRegistry ps s empty apart) live done
    where
      live_before :
          (t : S)
          → registry.IsLive (publish_schema_state registry codec show p t).1
          → registry.IsLive t
      live_before t = by_bytes (codec.marshal p)
        where
          by_bytes :
              (x : Result (List ℕ))
              → registry.IsLive (put_state registry codec show p t x).1
              → registry.IsLive t
          by_bytes (err e) l = l
          by_bytes (ok bytes) l = registry.IsLive-put (node_key show p.node_id) bytes t l

      by_result :
          (x : Outcome × S)
          → (registry.IsLive x.1 → x.0 ≡ ok tt → IsRegistry ps x.1)
          → registry.IsLive
              (elim x.0 as (λ _. Outcome × S) [
                | err e ↦ (err e, x.1)
                | ok _ ↦ publish_schema_state registry codec show p x.1
              ]).1
          → (elim x.0 as (λ _. Outcome × S) [
            | err e ↦ (err e, x.1)
            | ok _ ↦ publish_schema_state registry codec show p x.1
          ]).0
            ≡ ok tt
          → IsRegistry
              (p ∷ ps)
              (elim x.0 as (λ _. Outcome × S) [
                | err e ↦ (err e, x.1)
                | ok _ ↦ publish_schema_state registry codec show p x.1
              ]).1
      by_result (err e, t) held = λ live done. cc
      by_result (ok u, t) held =
          λ live. publish-IsRegistry p ps t (held (live_before t live) refl) ne live
