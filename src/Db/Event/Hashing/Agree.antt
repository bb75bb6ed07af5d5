-- ===== src/Db/Event/Hashing/Agree.antt =====
-- The hashes of two changes of one row (db/change_log_event.go).
use harmonylite.Prelude.{
  entries, lookup, String, ◌≡◌, refl, sym, ◌∙◌, ◌⊎◌, inl, inr, Bool, true, false, none, List, [],
  ◌∷◌, arith, Bool-cases, string_eq, nat_eq,
}
use harmonylite.Prelude.Sort.{
  sort_by, Reordered, sort_by-Reordered, Reordered-refl, nil, cons, swap, trans,
}
use harmonylite.Db.Event.Hashing.{
  pairs, pk_names, hash, or_null, get_sorted_pk_columns, Hasher, Cache,
}
use harmonylite.Db.Event.{Row, ColumnInfo, ChangeLogEvent}

-- The rows agree at the columns.
abbrev pub AgreeAt : List String → Row → Row → Type 0
AgreeAt [] r s = Unit {0}
AgreeAt (pk ∷ pks) r s = (or_null (lookup pk r) ≡ or_null (lookup pk s)) × AgreeAt pks r s

pub pairs-AgreeAt : (pks : List String) (r s : Row) → AgreeAt pks r s → pairs r pks ≡ pairs s pks
unfolding pairs
pairs-AgreeAt [] r s h = refl
pairs-AgreeAt (pk ∷ pks) r s h = rw (h.0, pairs-AgreeAt pks r s h.1)

-- Renaming a column's place in the table keeps its name and its part in the key.
abbrev pub col_name : ColumnInfo → String
col_name c = c.name

pk_names-Reordered :
    {xs ys : List ColumnInfo}
    → Reordered col_name xs ys
    → Reordered (λ s. s) (pk_names xs) (pk_names ys)
unfolding pk_names
pk_names-Reordered nil = nil
pk_names-Reordered (cons a {xs} {ys} r) = elim (Bool-cases a.is_primary_key) [
  | inl h ↦ rw h (cons a.name (pk_names-Reordered r))
  | inr h ↦ rw h (pk_names-Reordered r)
]
pk_names-Reordered (swap a b xs ne) = swapped a.is_primary_key b.is_primary_key refl refl
  where
    swapped :
        (p q : Bool)
        → a.is_primary_key ≡ p
        → b.is_primary_key ≡ q
        → Reordered (λ s. s) (pk_names (a ∷ b ∷ xs)) (pk_names (b ∷ a ∷ xs))
    swapped true true hp hq = rw (hp, hq) (swap a.name b.name (pk_names xs) ne)
    swapped true false hp hq = rw (hp, hq) (Reordered-refl (λ s. s) (a.name ∷ pk_names xs))
    swapped false true hp hq = rw (hp, hq) (Reordered-refl (λ s. s) (b.name ∷ pk_names xs))
    swapped false false hp hq = rw (hp, hq) (Reordered-refl (λ s. s) (pk_names xs))
pk_names-Reordered (trans r s) = trans (pk_names-Reordered r) (pk_names-Reordered s)

fresh :
    (cache : Cache) (e : ChangeLogEvent)
    → lookup e.table_name cache ≡ none
    → (get_sorted_pk_columns cache e).0 ≡ sort_by (λ s. s) (pk_names e.table_info)
unfolding get_sorted_pk_columns
fresh cache e miss = ground arith

after_hash :
    (h : Hasher) (cache : Cache) (e f : ChangeLogEvent)
    → e.table_name ≡ f.table_name
    → lookup e.table_name cache ≡ none
    → (get_sorted_pk_columns (hash h cache e).1 f).0 ≡ sort_by (λ s. s) (pk_names e.table_info)
unfolding hash get_sorted_pk_columns
after_hash h cache e f t miss = grind entries

hash_at :
    (h : Hasher) (cache : Cache) (e : ChangeLogEvent) (pks : List String)
    → (get_sorted_pk_columns cache e).0 ≡ pks
    → (hash h cache e).0 ≡ h e.table_name (pairs e.row pks)
unfolding hash
hash_at h cache e pks k = rw k refl

-- Two events of one table, whose columns a node may list in different orders, with equal values at
-- the key columns: on a node that has not cached the table, and on one that has cached it for the
-- first event, the second event hashes as the first.
pub hash_agree :
    (h : Hasher) (cache cache' : Cache) (e f : ChangeLogEvent)
    → e.table_name ≡ f.table_name
    → lookup e.table_name cache ≡ none
    → (cache' ≡ (hash h cache e).1) ⊎ (lookup f.table_name cache' ≡ none)
    → Reordered col_name e.table_info f.table_info
    → AgreeAt (sort_by (λ s. s) (pk_names e.table_info)) e.row f.row
    → (hash h cache' f).0 ≡ (hash h cache e).0
hash_agree h cache cache' e f t miss known cols rows =
    hash_at h cache' f (sort_by (λ s. s) (pk_names e.table_info)) columns
    ∙ rw (← t, ← pairs-AgreeAt _ e.row f.row rows) refl
    ∙ sym (hash_at h cache e (sort_by (λ s. s) (pk_names e.table_info)) (fresh cache e miss))
  where
    columns : (get_sorted_pk_columns cache' f).0 ≡ sort_by (λ s. s) (pk_names e.table_info)
    columns = elim known [
      | inl same ↦ rw same (after_hash h cache e f t miss)
      | inr new ↦ fresh cache' f new ∙ sym (sort_by-Reordered (λ s. s) (pk_names-Reordered cols))
    ]
