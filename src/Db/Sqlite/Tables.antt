-- ===== src/Db/Sqlite/Tables.antt =====
-- What the statements of db/sqlite.go and db/cleanup.go do to what `listDBTables` lists.
use Prim.Native.String.{◌++◌ as ◌^^◌}
use harmonylite.Prelude.{
  All, keep, ◌≐◌, String, ◌≡◌, refl, ◌≢◌, ◌⊎◌, inl, inr, Bool, true, false, ◌&&◌, List, [], ◌∷◌,
  ◌++◌, map, arith, eq_iff, Bool-cases, Outcome, ok, err, string_eq, nat_eq,
}
use harmonylite.Db.Sqlite.{
  SchemaObject, Statement, table, create_table, create_index, create_trigger, drop_trigger,
  drop_table, exec, apply, add, is_table, name, tbl_name, index, trigger, list_db_tables,
  harmony_lite_prefix, table_names, trigger_names, remove_cdc, then_tables, RemoveIo,
  remove_harmony_lite_triggers, remove_harmony_lite_tables,
}

-- The documented behaviour of LIKE that is used: a pattern `p%` matches the names that `p` begins.
abbrev pub MatchesPrefix : (String → String → Bool) → Type 0
MatchesPrefix like = (p s : String) → like p (p ^^ s) ≡ true

module _ (like : String → String → Bool) (matches : MatchesPrefix like) where
  -- A statement on a table of HarmonyLite, or on an index or a trigger.
  abbrev pub IsOwn : Statement → Type 0
  IsOwn (create_table auto n) = like harmony_lite_prefix n ≡ true
  IsOwn (drop_table n) = like harmony_lite_prefix n ≡ true
  IsOwn _ = Unit {0}

  -- A table whose name has one of the two prefixes is no user table.
  hidden :
      (n : String)
      → (like "sqlite_" n ≡ true) ⊎ (like harmony_lite_prefix n ≡ true)
      → list_db_tables like (table n ∷ []) ≡ []
  unfolding list_db_tables
  hidden n h = ground arith

  not_listed : (o : SchemaObject) → is_table o ≢ true → list_db_tables like (o ∷ []) ≡ []
  unfolding list_db_tables
  not_listed o h = ground arith

  dropped :
      (o : SchemaObject) (n : String)
      → like harmony_lite_prefix n ≡ true
      → (tbl_name o ≐ n) ≡ true
      → list_db_tables like (o ∷ []) ≡ []
  unfolding list_db_tables
  dropped (table m) n h e = rw ((eq_iff m n).0 e) (hidden n (inr h))
  dropped (index m t) n h e = refl
  dropped (trigger m t) n h e = refl

  tables-append :
      (s : List SchemaObject) (o : SchemaObject)
      → list_db_tables like (o ∷ []) ≡ []
      → list_db_tables like (s ++ o ∷ []) ≡ list_db_tables like s
  unfolding list_db_tables
  tables-append [] o h = h
  tables-append (p ∷ s) o h = ground (arith, tables-append s o h)

  tables-add :
      (o : SchemaObject) (s : List SchemaObject)
      → list_db_tables like (o ∷ []) ≡ []
      → list_db_tables like (add o s) ≡ list_db_tables like s
  unfolding add
  tables-add o s h = ground (arith, tables-append s o h)

  tables-keep :
      (p : SchemaObject → Bool) (s : List SchemaObject)
      → ((o : SchemaObject) → p o ≡ false → list_db_tables like (o ∷ []) ≡ [])
      → list_db_tables like (keep p s) ≡ list_db_tables like s
  unfolding list_db_tables keep
  tables-keep p [] h = refl
  tables-keep p (o ∷ s) h = elim (Bool-cases (p o)) [
    | inl e ↦ rw e (ground (arith, tables-keep p s h))
    | inr e ↦ rw e (ground (arith, tables-keep p s h, h o e))
  ]

  tables-apply :
      (q : Statement) (s : List SchemaObject)
      → IsOwn q
      → list_db_tables like (apply q s) ≡ list_db_tables like s
  unfolding apply
  tables-apply (create_table auto n) s h =
      let created = tables-add (table n) s (hidden n (inr h)) in
      let listed =
        tables-add (table "sqlite_sequence") (add (table n) s)
          (hidden "sqlite_sequence" (inl (matches "sqlite_" "sequence"))) in
      ground (arith, created, listed)
  tables-apply (create_index n t) s h = tables-add (index n t) s (unfold list_db_tables in refl)
  tables-apply (create_trigger n t) s h = tables-add (trigger n t) s (unfold list_db_tables in refl)
  tables-apply (drop_trigger n) s h = tables-keep _ s (λ o e. not_listed o (λ k. ground arith))
  tables-apply (drop_table n) s h = tables-keep _ s (λ o e. dropped o n h (ground arith))

  pub tables-exec :
      (io : Statement → Outcome) (qs : List Statement) (s : List SchemaObject)
      → All IsOwn qs
      → list_db_tables like (exec io qs s).1 ≡ list_db_tables like s
  unfolding exec
  tables-exec io [] s h = refl
  tables-exec io (q ∷ qs) s h =
      ground (arith, tables-apply q s h.0, tables-exec io qs (apply q s) h.1)

  tables-triggers :
      (io : RemoveIo) (s : List SchemaObject)
      → list_db_tables like (remove_harmony_lite_triggers like io harmony_lite_prefix s).1
        ≡ list_db_tables like s
  unfolding remove_harmony_lite_triggers
  tables-triggers io s = ground (
    arith,
    tables-exec io.run (map drop_trigger (trigger_names like harmony_lite_prefix s)) s
        (drops (trigger_names like harmony_lite_prefix s)),
  )
    where
      drops : (ns : List String) → All IsOwn (map drop_trigger ns)
      drops [] = tt
      drops (n ∷ ns) = (tt, drops ns)

  drops-IsOwn :
      (s : List SchemaObject) → All IsOwn (map drop_table (table_names like harmony_lite_prefix s))
  unfolding table_names
  drops-IsOwn [] = tt
  drops-IsOwn (o ∷ s) = elim (Bool-cases (is_table o && like harmony_lite_prefix (name o))) [
    | inl e ↦ rw e (ground arith, drops-IsOwn s)
    | inr e ↦ rw e (drops-IsOwn s)
  ]

  pub tables-remove_cdc :
      (io : RemoveIo) (tables : Bool) (s : List SchemaObject)
      → list_db_tables like (remove_cdc like io tables s).1 ≡ list_db_tables like s
  unfolding remove_cdc
  tables-remove_cdc io tables s = ground (
    arith,
    after (remove_harmony_lite_triggers like io harmony_lite_prefix s),
    tables-triggers io s,
  )
    where
      after :
          (r : Outcome × List SchemaObject)
          → list_db_tables like (then_tables like io tables r).1 ≡ list_db_tables like r.1
      after (err e, t) = unfold then_tables in refl
      after (ok u, t) =
          unfold then_tables remove_harmony_lite_tables in
          ground (
            arith,
            tables-exec io.run (map drop_table (table_names like harmony_lite_prefix t)) t
                (drops-IsOwn t),
          )
