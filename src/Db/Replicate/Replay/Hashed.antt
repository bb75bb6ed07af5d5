-- ===== src/Db/Replicate/Replay/Hashed.antt =====
-- Events that come by the shards: the shard that `Hash` of db/change_log_event.go gives for `Publish`
-- of logstream/replicator.go, and the listeners that apply the shards' events.
use harmonylite.Prelude.{
  All, keep, Dict, lookup, ℕ, suc, ◌%◌, String, ◌≡◌, refl, sym, ap, ◌∙◌, inr, Bool, true, false,
  Option, none, some, List, [], ◌∷◌, ◌==◌, if◌then◌else◌, Result, ok, err, string_eq, nat_eq,
}
use harmonylite.Prelude.Sort.{Reordered, Reordered-refl, All-sort_by}
use harmonylite.Db.Event.{Row, Value, ColumnInfo, ChangeLogEvent}
use harmonylite.Db.Event.Hashing.{Hasher, hash, or_null, pk_names}
use harmonylite.Db.Event.Hashing.Agree.{AgreeAt, col_name, hash_agree}
use harmonylite.Db.Replicate.{key_values}
use harmonylite.Db.Replicate.Applied.{key_of, key_values-key_of}
use harmonylite.Db.Replicate.Replay.{Rows, replay, touches}
use harmonylite.Db.Replicate.Replay.Shards.{streams_converge}

-- The shard that `Publish` takes for a hash; without one an event is not published.
abbrev pub shard_at : ℕ → Result ℕ → ℕ
shard_at shards (err e) = 0
shard_at shards (ok h) = suc (h % shards)

-- The shard of an event whose node lists these columns.
abbrev pub shard_of : Hasher → ℕ → List ColumnInfo → ChangeLogEvent → ℕ
shard_of hasher shards columns e =
    shard_at shards (hash hasher [] (record e { table_info = columns })).0

abbrev SameAt : Row → Row → String → Type 0
SameAt r s c = or_null (lookup c r) ≡ or_null (lookup c s)

All-AgreeAt : (r s : Row) (cs : List String) → All (SameAt r s) cs → AgreeAt cs r s
All-AgreeAt r s [] h = tt
All-AgreeAt r s (c ∷ cs) (h, hs) = (h, All-AgreeAt r s cs hs)

AgreeAt-refl : (cs : List String) (r : Row) → AgreeAt cs r r
AgreeAt-refl [] r = tt
AgreeAt-refl (c ∷ cs) r = (refl, AgreeAt-refl cs r)

-- Rows with the same key agree at the columns of the key.
key_values-SameAt :
    (columns : List ColumnInfo) (r s : Row)
    → key_values columns r ≡ key_values columns s
    → All (SameAt r s) (pk_names columns)
unfolding key_values pk_names
key_values-SameAt [] r s h = tt
key_values-SameAt (c ∷ cs) r s h = by_key c.is_primary_key (key_values-SameAt cs r s) h
  where
    at : Row → String × Value
    at row = (c.name, or_null (lookup c.name row))

    heads : at r ∷ key_values cs r ≡ at s ∷ key_values cs s → SameAt r s c.name
    heads q = cc

    tails : at r ∷ key_values cs r ≡ at s ∷ key_values cs s → key_values cs r ≡ key_values cs s
    tails q = cc

    by_key :
        (b : Bool)
        → (key_values cs r ≡ key_values cs s → All (SameAt r s) (pk_names cs))
        → (if b then at r ∷ key_values cs r else key_values cs r)
          ≡ (if b then at s ∷ key_values cs s else key_values cs s)
        → All (SameAt r s) (if b then c.name ∷ pk_names cs else pk_names cs)
    by_key true rest q = (heads q, rest (tails q))
    by_key false rest q = rest q

-- The order in which a node lists the columns does not change the hash.
hash_of_columns :
    (h : Hasher) (e : ChangeLogEvent) (columns sender : List ColumnInfo)
    → Reordered col_name columns sender
    → (hash h [] (record e { table_info = sender })).0
      ≡ (hash h [] (record e { table_info = columns })).0
unfolding lookup
hash_of_columns h e columns sender r =
    hash_agree h [] [] (record e { table_info = columns }) (record e { table_info = sender }) refl
      refl (inr refl) r (AgreeAt-refl _ e.row)

hash_of_key :
    (h : Hasher) (e f : ChangeLogEvent) (columns : List ColumnInfo)
    → e.table_name ≡ f.table_name
    → key_of columns e.row ≡ key_of columns f.row
    → (hash h [] (record f { table_info = columns })).0
      ≡ (hash h [] (record e { table_info = columns })).0
unfolding lookup
hash_of_key h e f columns t k =
    hash_agree h [] [] (record e { table_info = columns }) (record f { table_info = columns }) t
      refl (inr refl) (Reordered-refl col_name columns)
      (All-AgreeAt e.row f.row _ (
        All-sort_by (λ c. c) (SameAt e.row f.row) (pk_names columns)
          (key_values-SameAt columns e.row f.row
            (key_values-key_of columns e.row ∙ k ∙ sym (key_values-key_of columns f.row)))))

module _ {watch : Dict String (List ColumnInfo)} {S : Type 0} (rows : Rows watch S) where
  touched :
      (u : String) (k : Row) (e : ChangeLogEvent)
      → touches rows u k e ≡ true
      → (columns : List ColumnInfo) × (lookup e.table_name watch ≡ some columns)
        × (rows.is_one e.table_name (key_of columns e.row) u k ≡ true)
  touched u k e h = by_table (lookup e.table_name watch) refl h
    where
      by_table :
          (o : Option (List ColumnInfo))
          → lookup e.table_name watch ≡ o
          → (elim o as (λ _. Bool) [
            | none ↦ false
            | some columns ↦ rows.is_one e.table_name (key_of columns e.row) u k
          ])
            ≡ true
          → (columns : List ColumnInfo) × (lookup e.table_name watch ≡ some columns)
            × (rows.is_one e.table_name (key_of columns e.row) u k ≡ true)
      by_table none t q = cc
      by_table (some columns) t q = (columns, t, q)

  same_columns :
      (t t' : String) (cs ds : List ColumnInfo)
      → t ≡ t'
      → lookup t watch ≡ some cs
      → lookup t' watch ≡ some ds
      → ds ≡ cs
  same_columns t t' cs ds q h h' = some_inj (sym h' ∙ rw (← q) h)
    where
      some_inj : some ds ≡ some cs → ds ≡ cs
      some_inj r = cc

  -- Two nodes with the same rows get the events of the same shards, each shard in its order, but
  -- interleaved as it may be. Each event was published to the shard that its hash gives, by a node
  -- that lists the columns of its table in some order. Then the nodes have the same rows afterwards,
  -- if keys that name one row are written alike. The tables have no unique column outside their key.
  pub shards_converge :
      (hasher : Hasher) (shards : ℕ) (sender : ChangeLogEvent → List ColumnInfo)
      (a b : List ChangeLogEvent) (s s' : S)
      → ((t t' u : String) (p q k : Row)
          → rows.is_one t p u k ≡ true
          → rows.is_one t' q u k ≡ true
          → (t ≡ t') × (p ≡ q))
      → ((e : ChangeLogEvent) (columns : List ColumnInfo)
          → lookup e.table_name watch ≡ some columns
          → Reordered col_name columns (sender e))
      → ((i : ℕ)
          → keep (λ e. shard_of hasher shards (sender e) e == i) a
            ≡ keep (λ e. shard_of hasher shards (sender e) e == i) b)
      → ((u : String) (k : Row) → rows.find u k s ≡ rows.find u k s')
      → (u : String) (k : Row) → rows.find u k (replay rows a s) ≡ rows.find u k (replay rows b s')
  shards_converge hasher shards sender a b s s' exact listed same start =
      streams_converge rows (λ e. shard_of hasher shards (sender e) e) a b s s' one same start
    where
      one :
          (u : String) (k : Row) (e f : ChangeLogEvent)
          → touches rows u k e ≡ true
          → touches rows u k f ≡ true
          → shard_of hasher shards (sender e) e ≡ shard_of hasher shards (sender f) f
      one u k e f h g =
          let (cs, le, oe) = touched u k e h in
          let (ds, lf, of) = touched u k f g in
          let (t, keys) = exact e.table_name f.table_name u _ _ k oe of in
          let d = same_columns e.table_name f.table_name cs ds t le lf in
          ap (shard_at shards) (
            hash_of_columns hasher e cs (sender e) (listed e cs le)
            ∙ sym (hash_of_key hasher e f cs t (keys ∙ ap (λ x. key_of x f.row) d))
            ∙ sym (hash_of_columns hasher f cs (sender f) (listed f cs (lf ∙ ap some d))))
