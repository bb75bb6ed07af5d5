-- ===== src/Db/SchemaCache.antt =====
-- db/schema_cache.go: the current schema hash and the one before it. The lock is not modelled: each
-- method is an atomic step. `compute` is what `ComputeSchemaHash` returns when it is called.
use harmonylite.Prelude.{
  length, All, tests, ◌≐◌, String, ◌≡◌, refl, ◌∙◌, ◌≢◌, Bool, true, false, not, ◌&&◌, List, [], ◌∷◌,
  ltb, if◌then◌else◌, Result, Outcome, ok, err, string_eq, nat_eq,
}

pub record SchemaCache : Type 0 where
  pub schema_hash : String
  pub previous_hash : String
  pub has_manager : Bool
  pub tables : List String

abbrev pub new_schema_cache : SchemaCache
new_schema_cache = record { schema_hash = ""; previous_hash = ""; has_manager = false; tables = [] }

abbrev pub Compute : Type 0
Compute = List String → Result String

unfoldable pub initialize : Compute → List String → SchemaCache → Outcome × SchemaCache
initialize compute tables sc = elim (compute tables) [
  | err e ↦ (err e, sc)
  | ok hash ↦ (ok tt, record sc { schema_hash = hash; has_manager = true; tables = tables })
]

unfoldable pub recompute : Compute → SchemaCache → Result String × SchemaCache
recompute compute sc = elim (compute sc.tables) [
  | err e ↦ (err e, sc)
  | ok hash ↦
      let changed = not (hash ≐ sc.schema_hash) && not (sc.schema_hash ≐ "") in
      (
        ok hash,
        record sc {
          previous_hash = if changed then sc.schema_hash else sc.previous_hash;
          schema_hash = hash;
        },
      )
]

unfoldable pub is_initialized : SchemaCache → Bool
is_initialized sc = sc.has_manager && ltb 0 (length sc.tables)

-- The last hash of a list, or `h` where it is empty.
pub last_or : String → List String → String
last_or h [] = h
last_or h (x ∷ xs) = last_or x xs

-- The last hash before the last change.
pub before_change : String → String → List String → String
before_change prev cur [] = prev
before_change prev cur (x ∷ xs) =
    if x ≐ cur then before_change prev cur xs else before_change cur x xs

-- `Recompute` once for each result of the inspection.
pub recompute_all : List String → SchemaCache → SchemaCache
recompute_all [] sc = sc
recompute_all (h ∷ hs) sc = recompute_all hs (recompute (λ _. ok h) sc).1

-- However often the hash of an initialized cache is recomputed, to hashes that are not empty, the
-- cache holds the latest one, and as the previous one the hash that the latest change replaced.
pub recompute_all_lem :
    (hs : List String) (sc : SchemaCache)
    → sc.schema_hash ≢ ""
    → All (λ h. h ≢ "") hs
    → let sc' = recompute_all hs sc in
      (sc'.schema_hash ≡ last_or sc.schema_hash hs)
      × (sc'.previous_hash ≡ before_change sc.previous_hash sc.schema_hash hs)
unfolding recompute_all recompute last_or before_change
recompute_all_lem [] sc n h = (refl, refl)
recompute_all_lem (x ∷ hs) sc n (nx, h) =
    let (l, p) = recompute_all_lem hs (recompute (λ _. ok x) sc).1 nx h in (l, p ∙ grind tests)
