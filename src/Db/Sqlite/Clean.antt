-- ===== src/Db/Sqlite/Clean.antt =====
-- What a removal of db/cleanup.go, and so a backup of db/sqlite.go, leaves of the schema.
use harmonylite.Prelude.{
  keep, tests, ◌≐◌, String, ◌≡◌, refl, ◌∙◌, Bool, true, not, ◌&&◌, Option, some, List, map, arith,
  Outcome, ok, err, string_eq, nat_eq,
}
use harmonylite.Db.Sqlite.{
  SchemaObject, drop_trigger, drop_table, exec, apply, is_trigger, name, tbl_name, table_names,
  trigger_names, remove_harmony_lite_triggers, remove_harmony_lite_tables, RemoveIo, then_tables,
  remove_cdc, table, harmony_lite_prefix, index, trigger,
}
use harmonylite.Db.Sqlite.Drops.{
  is_own_trigger, is_own_table, is_own, Gone, trigger_names-own, table_names-own, others-drops,
  Gone-drops, cleared, listed-trigger_names, listed-table_names,
}

module _ (like : String → String → Bool) (prefix : String) where
  -- The schema `t` has no trigger and no table with a name that `LIKE` matches, and of the other objects
  -- exactly those of `s`, in their order.
  abbrev pub IsClear : List SchemaObject → List SchemaObject → Type 0
  IsClear s t =
      Gone like prefix (is_own_trigger like prefix) t
      × Gone like prefix (is_own_table like prefix) t
      × (keep (λ o. not (is_own like prefix o)) t ≡ keep (λ o. not (is_own like prefix o)) s)

  abbrev IsClean : List SchemaObject → Outcome × List SchemaObject → Type 0
  IsClean s r = (r.0 ≡ ok tt) → IsClear s r.1

  applies-drop_trigger :
      (n : String) (s : List SchemaObject)
      → apply (drop_trigger n) s ≡ keep (λ o. not (is_trigger o && name o ≐ n)) s
  unfolding apply
  applies-drop_trigger n s = refl

  applies-drop_table :
      (n : String) (s : List SchemaObject)
      → apply (drop_table n) s ≡ keep (λ o. not (tbl_name o ≐ n)) s
  unfolding apply
  applies-drop_table n s = refl

  -- What the first part of a removal comes to.
  abbrev NoTriggers : List SchemaObject → Outcome × List SchemaObject → Type 0
  NoTriggers s r =
      (r.0 ≡ ok tt → Gone like prefix (is_own_trigger like prefix) r.1)
      × (keep (λ o. not (is_own like prefix o)) r.1 ≡ keep (λ o. not (is_own like prefix o)) s)

  removed-triggers :
      (io : RemoveIo) (s : List SchemaObject)
      → NoTriggers s (remove_harmony_lite_triggers like io prefix s)
  unfolding remove_harmony_lite_triggers
  removed-triggers io s = by_select io.select_triggers
    where
      ns : List String
      ns = trigger_names like prefix s

      by_select :
          (x : Outcome)
          → NoTriggers s
              (elim x [ err e ↦ (err e, s) | ok _ ↦ exec io.run (map drop_trigger ns) s ])
      by_select (err e) = (λ h. cc, refl)
      by_select (ok u) = (
        λ h.
            cleared like prefix drop_trigger (λ n o. is_trigger o && name o ≐ n)
              applies-drop_trigger (is_own_trigger like prefix) io.run ns s
              (λ n o p e. ground arith) h (listed-trigger_names like prefix s),
        others-drops like prefix drop_trigger (λ n o. is_trigger o && name o ≐ n)
            applies-drop_trigger io.run ns s (λ n o l h. grind tests)
            (trigger_names-own like prefix s),
      )

  own_table-name :
      (o : SchemaObject) (n : String)
      → (is_own_table like prefix) o ≡ true
      → (name o ≐ n) ≡ true
      → (tbl_name o ≐ n) ≡ true
  own_table-name (table m) n p e = e
  own_table-name (index m t) n p e = cc
  own_table-name (trigger m t) n p e = cc

  removed-tables :
      (io : RemoveIo) (s : List SchemaObject)
      → Gone like prefix (is_own_trigger like prefix) s
      → IsClean s (remove_harmony_lite_tables like io prefix s)
  unfolding remove_harmony_lite_tables
  removed-tables io s gone = by_select io.select_tables
    where
      ns : List String
      ns = table_names like prefix s

      by_select :
          (x : Outcome)
          → IsClean s (elim x [ err e ↦ (err e, s) | ok _ ↦ exec io.run (map drop_table ns) s ])
      by_select (err e) h = cc
      by_select (ok u) h = (
        Gone-drops like prefix drop_table (λ n o. tbl_name o ≐ n) applies-drop_table
            (is_own_trigger like prefix) io.run ns s gone,
        cleared like prefix drop_table (λ n o. tbl_name o ≐ n) applies-drop_table
            (is_own_table like prefix) io.run ns s (λ n o p e. own_table-name o n p e) h
            (listed-table_names like prefix s),
        others-drops like prefix drop_table (λ n o. tbl_name o ≐ n) applies-drop_table io.run ns s
            (λ n o l h. grind tests) (table_names-own like prefix s),
      )

module _ (like : String → String → Bool) where
  then_tables-IsClean :
      (io : RemoveIo) (s : List SchemaObject) (r : Outcome × List SchemaObject)
      → NoTriggers like harmony_lite_prefix s r
      → IsClean like harmony_lite_prefix s (then_tables like io true r)
  unfolding then_tables
  then_tables-IsClean io s (err e, t) n h = cc
  then_tables-IsClean io s (ok u, t) n h =
      let (a, b, c) = removed-tables like harmony_lite_prefix io t (n.0 refl) h in (a, b, c ∙ n.1)

  -- A removal of triggers and tables that succeeds leaves no trigger and no table with a name of
  -- HarmonyLite, and exactly the other objects, in their order: those of which neither the name
  -- nor the table's name is one of HarmonyLite, as `LIKE` decides it.
  pub remove_cdc-IsClear :
      (io : RemoveIo) (s : List SchemaObject)
      → (remove_cdc like io true s).0 ≡ ok tt
      → IsClear like harmony_lite_prefix s (remove_cdc like io true s).1
  unfolding remove_cdc
  remove_cdc-IsClear io s = by_borrow io.borrow
    where
      by_borrow :
          (x : Outcome)
          → IsClean like harmony_lite_prefix s (elim x [
            | err e ↦ (err e, s)
            | ok _ ↦
                then_tables like io true
                  (remove_harmony_lite_triggers like io harmony_lite_prefix s)
          ])
      by_borrow (err e) h = cc
      by_borrow (ok u) h =
          then_tables-IsClean io s (remove_harmony_lite_triggers like io harmony_lite_prefix s)
            (removed-triggers like harmony_lite_prefix io s) h

  -- What a backup comes to: where it succeeds there is a copy, and the copy is clean.
  abbrev IsStripped : List SchemaObject → Outcome × Option (List SchemaObject) → Type 0
  IsStripped s r =
      (r.0 ≡ ok tt)
      → (copy : List SchemaObject) × (r.1 ≡ some copy) × IsClear like harmony_lite_prefix s copy
