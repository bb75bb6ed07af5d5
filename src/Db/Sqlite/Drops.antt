-- ===== src/Db/Sqlite/Drops.antt =====
-- The lists of drops of db/cleanup.go: which names they go through, and what they leave.
use harmonylite.Prelude.{
  All, All-map, keep, tests, ◌≐◌, String, ◌≡◌, refl, sym, subst, inl, inr, Bool, true, false, not,
  ◌&&◌, ◌||◌, List, [], ◌∷◌, map, arith, Bool-cases, Outcome, Result-cases, ok, err, string_eq,
  nat_eq,
}
use harmonylite.Db.Sqlite.{
  SchemaObject, Statement, exec, apply, is_table, is_trigger, name, tbl_name, table_names,
  trigger_names,
}

pub listed : String → List String → Bool
listed s [] = false
listed s (t ∷ ts) = s ≐ t || listed s ts

module _ (like : String → String → Bool) (prefix : String) where
  -- A trigger, or a table, with a name of HarmonyLite.
  abbrev pub is_own_trigger : SchemaObject → Bool
  is_own_trigger o = is_trigger o && like prefix (name o)

  abbrev pub is_own_table : SchemaObject → Bool
  is_own_table o = is_table o && like prefix (name o)

  -- An object that has a name of HarmonyLite, or that belongs to a table with such a name.
  abbrev pub is_own : SchemaObject → Bool
  is_own o = like prefix (name o) || like prefix (tbl_name o)

  -- The drops of objects of HarmonyLite keep the others.
  others-keep :
      (p : SchemaObject → Bool) (s : List SchemaObject)
      → ((o : SchemaObject) → p o ≡ false → is_own o ≡ true)
      → keep (λ o. not (is_own o)) (keep p s) ≡ keep (λ o. not (is_own o)) s
  unfolding keep
  others-keep p [] h = refl
  others-keep p (o ∷ s) h = elim (Bool-cases (p o)) [
    | inl e ↦ rw e (ground (arith, others-keep p s h))
    | inr e ↦ rw e (ground (arith, others-keep p s h, h o e))
  ]

  pub trigger_names-own :
      (s : List SchemaObject) → All (λ n. like prefix n ≡ true) (trigger_names like prefix s)
  unfolding trigger_names
  trigger_names-own [] = tt
  trigger_names-own (o ∷ s) = elim (Bool-cases (is_own_trigger o)) [
    | inl e ↦ rw e (ground arith, trigger_names-own s)
    | inr e ↦ rw e (trigger_names-own s)
  ]

  pub table_names-own :
      (s : List SchemaObject) → All (λ n. like prefix n ≡ true) (table_names like prefix s)
  unfolding table_names
  table_names-own [] = tt
  table_names-own (o ∷ s) = elim (Bool-cases (is_own_table o)) [
    | inl e ↦ rw e (ground arith, table_names-own s)
    | inr e ↦ rw e (table_names-own s)
  ]

  -- Dropping by every name that a list has leaves none of its objects: a predicate that no drop
  -- makes true again.
  abbrev pub Gone : (SchemaObject → Bool) → List SchemaObject → Type 0
  Gone p s = All (λ o. p o ≡ false) s

  Gone-keep : (p q : SchemaObject → Bool) (s : List SchemaObject) → Gone p s → Gone p (keep q s)
  unfolding keep
  Gone-keep p q [] h = tt
  Gone-keep p q (o ∷ s) h = elim (Bool-cases (q o)) [
    | inl e ↦ rw e (h.0, Gone-keep p q s h.1)
    | inr e ↦ rw e (Gone-keep p q s h.1)
  ]

  -- A list of drops, for triggers or for tables.
  module _ (drop_it : String → Statement) (hits : String → SchemaObject → Bool)
      (applies : (n : String) (s : List SchemaObject)
        → apply (drop_it n) s ≡ keep (λ o. not (hits n o)) s) where
    pub others-drops :
        (io : Statement → Outcome) (ns : List String) (s : List SchemaObject)
        → ((n : String) (o : SchemaObject)
            → like prefix n ≡ true
            → hits n o ≡ true
            → is_own o ≡ true)
        → All (λ n. like prefix n ≡ true) ns
        → keep (λ o. not (is_own o)) (exec io (map drop_it ns) s).1 ≡ keep (λ o. not (is_own o)) s
    unfolding exec
    others-drops io [] s own h = refl
    others-drops io (n ∷ ns) s own h =
        let dropped = others-keep (λ o. not (hits n o)) s (λ o e. own n o h.0 (ground arith)) in
        ground (arith, dropped, applies n s, others-drops io ns (apply (drop_it n) s) own h.1)

    pub Gone-drops :
        (p : SchemaObject → Bool) (io : Statement → Outcome) (ns : List String)
        (s : List SchemaObject)
        → Gone p s
        → Gone p (exec io (map drop_it ns) s).1
    unfolding exec
    Gone-drops p io [] s h = h
    Gone-drops p io (n ∷ ns) s h = by_result (io (drop_it n)) (
        Gone-drops p io ns (apply (drop_it n) s)
          (subst (Gone p) (sym (applies n s)) (Gone-keep p _ s h)))
      where
        by_result :
            (x : Outcome)
            → Gone p (exec io (map drop_it ns) (apply (drop_it n) s)).1
            → Gone p
                (let z : Outcome × List SchemaObject = elim x [
                  | err e ↦ (err e, s)
                  | ok _ ↦ exec io (map drop_it ns) (apply (drop_it n) s)
                ] in
                  z).1
        by_result (err e) k = h
        by_result (ok u) k = k

    pub cleared :
        (p : SchemaObject → Bool) (io : Statement → Outcome) (ns : List String)
        (s : List SchemaObject)
        → ((n : String) (o : SchemaObject) → p o ≡ true → (name o ≐ n) ≡ true → hits n o ≡ true)
        → (exec io (map drop_it ns) s).0 ≡ ok tt
        → All (λ o. p o ≡ true → listed (name o) ns ≡ true) s
        → Gone p (exec io (map drop_it ns) s).1
    unfolding exec listed keep
    cleared p io [] s own e h = All-map _ _ s (λ o k. ground arith) h
    cleared p io (n ∷ ns) s own e h = elim (Result-cases (io (drop_it n))) [
      | inl (x, k) ↦ absurd (ground arith)
      | inr (u, k) ↦
          rw k (cleared p io ns (apply (drop_it n) s) own (rw k at e) (rw applies (still s h)))
    ]
      where
        still :
            (s : List SchemaObject)
            → All (λ o. p o ≡ true → listed (name o) (n ∷ ns) ≡ true) s
            → All (λ o. p o ≡ true → listed (name o) ns ≡ true) (keep (λ o. not (hits n o)) s)
        still [] h = tt
        still (o ∷ s) h = elim (Bool-cases (hits n o)) [
          | inl k ↦ rw k (still s h.1)
          | inr k ↦ rw k (λ po. ground (arith, h.0 po, own n o po), still s h.1)
        ]

  pub listed-trigger_names :
      (s : List SchemaObject)
      → All (λ o. is_own_trigger o ≡ true → listed (name o) (trigger_names like prefix s) ≡ true) s
  unfolding trigger_names listed
  listed-trigger_names [] = tt
  listed-trigger_names (o ∷ s) =
      (λ h. grind tests, All-map _ _ s (λ p k h. ground (arith, k h)) (listed-trigger_names s))

  pub listed-table_names :
      (s : List SchemaObject)
      → All (λ o. is_own_table o ≡ true → listed (name o) (table_names like prefix s) ≡ true) s
  unfolding table_names listed
  listed-table_names [] = tt
  listed-table_names (o ∷ s) =
      (λ h. grind tests, All-map _ _ s (λ p k h. ground (arith, k h)) (listed-table_names s))
