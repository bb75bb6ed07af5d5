-- ===== src/Logstream/SchemaRegistry/Gathered.antt =====
-- The map that `GetClusterSchemaState` of logstream/schema_registry.go fills.
use harmonylite.Prelude.{
  All, All-map, Dict, ◌≐◌, lookup-insert, ≐_refl, lookup, insert, ℕ, String, ◌≡◌, sym, ap, ◌∙◌,
  subst, ◌↔◌, inl, inr, Bool, true, false, some, List, [], ◌∷◌, if◌then◌else◌, ==_iff, Bool-cases,
  Err, Result, Result-cases, ok, err, string_eq, nat_eq,
}
use harmonylite.Logstream.SchemaRegistry.{NodeSchemaState, gather}

All-insert :
    (P : ℕ × NodeSchemaState → Type 0) (k : ℕ) (v : NodeSchemaState) (m : Dict ℕ NodeSchemaState)
    → ((j : ℕ) → (j ≐ k) ≡ true → P (j, v))
    → All P m
    → All P (insert k v m)
unfolding insert
All-insert P k v [] p a = (p k (≐_refl k), tt)
All-insert P k v ((j, w) ∷ m) p a = elim (Bool-cases (j ≐ k)) [
  | inl e ↦ rw e (p k (≐_refl k), a.1)
  | inr e ↦ rw e (a.0, All-insert P k v m p a.1)
]

pub lookup-All :
    (P : NodeSchemaState → Type 0) (k : ℕ) (v : NodeSchemaState) (m : Dict ℕ NodeSchemaState)
    → All (λ x. P x.1) m
    → lookup k m ≡ some v
    → P v
unfolding lookup
lookup-All P k v [] a h = cc
lookup-All P k v ((j, w) ∷ m) (p, a) h = by_key (j ≐ k) (lookup-All P k v m a) h
  where
    by_key :
        (b : Bool) → (lookup k m ≡ some v → P v) → (if b then some w else lookup k m) ≡ some v → P v
    by_key true later h = let same : w ≡ v = cc in rw (← same) p
    by_key false later h = later h

module _ (entry : String → Result NodeSchemaState) (key : ℕ → String) where
  -- An entry stands at its node's key.
  abbrev pub IsOwn : String → Type 0
  IsOwn k = (state : NodeSchemaState) → entry k ≡ ok state → k ≡ key state.node_id

  -- The entry's state, if it can be read, satisfies `P`.
  abbrev pub Reads : (NodeSchemaState → Type 0) → String → Type 0
  Reads P k = (state : NodeSchemaState) → entry k ≡ ok state → P state

  gather-ok :
      (k : String) (ks : List String) (state : NodeSchemaState) (m : Dict ℕ NodeSchemaState)
      → entry k ≡ ok state
      → gather entry (k ∷ ks) m ≡ gather entry ks (insert state.node_id state m)
  unfolding gather
  gather-ok k ks state m e = rw (e, gather)

  gather-err :
      (k : String) (ks : List String) (e : Err) (m : Dict ℕ NodeSchemaState)
      → entry k ≡ err e
      → gather entry (k ∷ ks) m ≡ gather entry ks m
  unfolding gather
  gather-err k ks e m q = rw (q, gather)

  -- Two states of one node that stand at their keys are one.
  one_state :
      (k : String) (s t : NodeSchemaState)
      → entry (key t.node_id) ≡ ok t
      → IsOwn k
      → entry k ≡ ok s
      → s.node_id ≡ t.node_id
      → s ≡ t
  one_state k s t here own e same = ok_inj s t (sym e ∙ ap entry (own s e ∙ ap key same) ∙ here)
    where
      ok_inj : (s t : NodeSchemaState) → ok s ≡ ok t → s ≡ t
      ok_inj s t q = cc

  lookup-insert_kept :
      (k : String) (s t : NodeSchemaState) (m : Dict ℕ NodeSchemaState)
      → entry (key t.node_id) ≡ ok t
      → IsOwn k
      → entry k ≡ ok s
      → lookup t.node_id m ≡ some t
      → lookup t.node_id (insert s.node_id s m) ≡ some t
  lookup-insert_kept k s t m here own e h = elim (Bool-cases (s.node_id ≐ t.node_id)) [
    | inl q ↦ rw (lookup-insert, q) (ap some (one_state k s t here own e ((==_iff _ _).0 q)))
    | inr q ↦ rw (lookup-insert, q) h
  ]

  lookup-gather_kept :
      (t : NodeSchemaState) (ks : List String) (m : Dict ℕ NodeSchemaState)
      → entry (key t.node_id) ≡ ok t
      → All IsOwn ks
      → lookup t.node_id m ≡ some t
      → lookup t.node_id (gather entry ks m) ≡ some t
  lookup-gather_kept t [] m here own h = unfold gather in h
  lookup-gather_kept t (k ∷ ks) m here (own, owns) h = elim (Result-cases (entry k)) [
    | inl (e, q) ↦ rw (gather-err k ks e m q) (lookup-gather_kept t ks m here owns h)
    | inr (s, q) ↦ rw (gather-ok k ks s m q) (
        lookup-gather_kept t ks (insert s.node_id s m) here owns
          (lookup-insert_kept k s t m here own q h))
  ]

  abbrev Finds : Dict ℕ NodeSchemaState → String → Type 0
  Finds m = Reads (λ s. lookup s.node_id m ≡ some s)

  -- A state that is read at its own key is found under its node.
  lookup-gather :
      (ks : List String) (m : Dict ℕ NodeSchemaState)
      → All IsOwn ks
      → All (Finds (gather entry ks m)) ks
  lookup-gather [] m own = tt
  lookup-gather (k ∷ ks) m (own, owns) = elim (Result-cases (entry k)) [
    | inl (e, q) ↦
        subst (λ g. All (Finds g) (k ∷ ks)) (sym (gather-err k ks e m q))
          ((λ s r. absurd (no_state e s (sym q ∙ r))), lookup-gather ks m owns)
    | inr (t, q) ↦
        subst (λ g. All (Finds g) (k ∷ ks)) (sym (gather-ok k ks t m q))
          (
            (λ s r.
                let same : s ≡ t = ok_same s t (sym r ∙ q) in
                rw same (
                  lookup-gather_kept t ks (insert t.node_id t m) (ap entry (sym (own t q)) ∙ q) owns
                    (inserted t))),
            lookup-gather ks (insert t.node_id t m) owns,
          )
  ]
    where
      no_state : (e : Err) (s : NodeSchemaState) → ¬ (err e ≡ ok s)
      no_state e s r = cc

      ok_same : (s t : NodeSchemaState) → ok s ≡ ok t → s ≡ t
      ok_same s t r = cc

      inserted : (t : NodeSchemaState) → lookup t.node_id (insert t.node_id t m) ≡ some t
      inserted t = rw (lookup-insert, ≐_refl t.node_id)

  gather-All :
      (P : NodeSchemaState → Type 0) (ks : List String) (m : Dict ℕ NodeSchemaState)
      → All (Reads P) ks
      → All (λ x. P x.1) m
      → All (λ x. P x.1) (gather entry ks m)
  gather-All P [] m r a = unfold gather in a
  gather-All P (k ∷ ks) m (r, rs) a = elim (Result-cases (entry k)) [
    | inl (e, q) ↦ rw (gather-err k ks e m q) (gather-All P ks m rs a)
    | inr (s, q) ↦ rw (gather-ok k ks s m q) (
        gather-All P ks (insert s.node_id s m) rs
          (All-insert (λ x. P x.1) s.node_id s m (λ j e. r s q) a))
  ]

  -- All gathered states satisfy `P` exactly if every entry that can be read does.
  pub gathered_iff :
      (P : NodeSchemaState → Type 0) (ks : List String)
      → All IsOwn ks
      → All (λ x. P x.1) (gather entry ks []) ↔ All (Reads P) ks
  gathered_iff P ks own = (
    (λ a.
        All-map _ _ ks (λ k found s e. lookup-All P s.node_id s (gather entry ks []) a (found s e))
          (lookup-gather ks [] own)),
    (λ r. gather-All P ks [] r tt),
  )
