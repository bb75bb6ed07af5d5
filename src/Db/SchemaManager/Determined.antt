-- ===== src/Db/SchemaManager/Determined.antt =====
-- The schema hash of db/schema_manager.go and the order in which the inspection lists the schema.
use harmonylite.Prelude.{String, ◌≡◌, refl, ap, ◌∙◌, List, ◌∷◌, ok}
use harmonylite.Db.SchemaManager.{
  Table, hash_table, tables_text, compute_schema_hash, Realm, contains,
}
use harmonylite.Prelude.Sort.{
  Reordered, sort_by-Reordered, keep-Reordered, Pairwise, none_left, both, sort_by-Pairwise,
  keep-Pairwise,
}

-- One table, with its columns in another order.
pub record SameTable (t u : Table) : Type 0 where
  pub name : t.name ≡ u.name
  pub primary_key : t.primary_key ≡ u.primary_key
  pub columns : Reordered (λ c. c.name) t.columns u.columns

hash_table-SameTable : (t u : Table) → SameTable t u → hash_table t ≡ hash_table u
unfolding hash_table
hash_table-SameTable t u s =
    rw (s.name, s.primary_key, sort_by-Reordered (λ c. c.name) s.columns) refl

tables_text-Pairwise :
    {ts us : List Table} → Pairwise SameTable ts us → tables_text ts ≡ tables_text us
unfolding tables_text
tables_text-Pairwise none_left = refl
tables_text-Pairwise (both {x = t} {y = u} s p) =
    rw (hash_table-SameTable t u s, tables_text-Pairwise p) refl

-- Two inspections that list the same tables in any order, and in each the same columns in any order
-- (names being distinct), give one hash, whichever tables are watched.
pub compute_schema_hash_order :
    (digest : String → String) (ts us vs : List Table) (rest rest' : Realm) (tables : List String)
    → Reordered (λ t. t.name) ts us
    → Pairwise SameTable us vs
    → compute_schema_hash digest (ok (ts ∷ rest)) tables
      ≡ compute_schema_hash digest (ok (vs ∷ rest')) tables
unfolding compute_schema_hash
compute_schema_hash_order digest ts us vs rest rest' tables r p =
    let p' = λ (n : String). contains n tables in
    ap (λ x. ok (digest (tables_text x)))
      (sort_by-Reordered (λ (t : Table). t.name) (keep-Reordered (λ t. t.name) (λ t. p' t.name) r))
    ∙ ap (λ x. ok (digest x))
        (tables_text-Pairwise (
          sort_by-Pairwise (λ t. t.name) SameTable (λ x y s. s.name)
            (keep-Pairwise (λ t. t.name) SameTable (λ x y s. s.name) p' p)))
