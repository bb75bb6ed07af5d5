-- ===== src/Tests/DbTests.antt =====
-- The theorems on hashes and the schema check at concrete inputs.
use harmonylite.Prelude.{
  length, tests, ◌≐◌, lookup, ℕ, suc, String, ◌≡◌, refl, ◌≢◌, inr, Bool, true, false, none, some,
  List, [], ◌∷◌, Outcome, ok, string_eq, nat_eq,
}
use harmonylite.Prelude.Sort.{swap, nil, both, none_left, Reordered-refl, sort_by}
use harmonylite.Tests.Codecs.{toy_codec}
use harmonylite.Db.Event.{ColumnInfo, Row, int, text, null, ChangeLogEvent}
use harmonylite.Db.Event.Hashing.{Hasher, hash, pk_names}
use harmonylite.Db.Event.Hashing.Agree.{hash_agree}
use harmonylite.Db.SchemaManager.{Column, Table, compute_schema_hash}
use harmonylite.Db.SchemaManager.Determined.{compute_schema_hash_order}
use harmonylite.Db.SchemaCache.{SchemaCache}
use harmonylite.Logstream.Validation.{Guard, Moment, validate_and_replicate_with_schema}
use harmonylite.Logstream.Validation.Safety.{Sound, validate-Sound}
use harmonylite.Logstream.ListenWithDb.{Message, invoke_listener_with_schema_validation}
use harmonylite.Logstream.ListenWithDb.Unchecked.{invoke_is_unchecked, invoke_unchecked}
use harmonylite.Logstream.Listener.{Delivery}

differ : (a b : String) → (a ≐ b) ≡ false → a ≢ b
differ a b h e = grind tests

abbrev column : String → Bool → ColumnInfo
column name is_key = record {
  name = name;
  type = "TEXT";
  not_null = true;
  default_value = null;
  primary_key_index = 1;
  is_primary_key = is_key;
}

abbrev event : Row → List ColumnInfo → ChangeLogEvent
event row columns = record {
  id = 1;
  type = "update";
  table_name = "books";
  row = row;
  schema_hash = "abc";
  table_info = columns;
}

abbrev hasher : Hasher
hasher table ps = ok (length ps)

abbrev first_event : ChangeLogEvent
first_event =
    event (("id", int 3) ∷ ("title", text "x") ∷ []) (column "id" true ∷ column "title" false ∷ [])

abbrev second_event : ChangeLogEvent
second_event =
    event (("title", text "y") ∷ ("id", int 3) ∷ []) (column "title" false ∷ column "id" true ∷ [])

hash_agree_example : (hash hasher [] second_event).0 ≡ (hash hasher [] first_event).0
unfolding lookup pk_names sort_by
hash_agree_example =
    hash_agree hasher [] [] first_event second_event refl refl (inr refl)
      (swap (column "id" true) (column "title" false) [] (differ "id" "title" refl)) (refl, tt)

abbrev schema_column : String → Column
schema_column name = record { name = name; raw = "TEXT"; type_name = none; null = false }

abbrev table : String → List Column → Table
table name columns = record { name = name; columns = columns; primary_key = none }

compute_schema_hash_order_example :
    compute_schema_hash
      (λ s. s)
      (ok ((table "a" (schema_column "x" ∷ []) ∷ table "b" [] ∷ []) ∷ []))
      ("a" ∷ [])
    ≡ compute_schema_hash
        (λ s. s)
        (ok ((table "b" [] ∷ table "a" (schema_column "x" ∷ []) ∷ []) ∷ []))
        ("a" ∷ [])
compute_schema_hash_order_example =
    compute_schema_hash_order (λ s. s) (table "a" (schema_column "x" ∷ []) ∷ table "b" [] ∷ [])
      (table "b" [] ∷ table "a" (schema_column "x" ∷ []) ∷ [])
      (table "b" [] ∷ table "a" (schema_column "x" ∷ []) ∷ []) [] [] ("a" ∷ [])
      (swap (table "a" (schema_column "x" ∷ [])) (table "b" []) [] (differ "a" "b" refl))
      (both (record { name = refl; primary_key = refl; columns = nil })
        (both
          (record {
            name = refl;
            primary_key = refl;
            columns = Reordered-refl _ (schema_column "x" ∷ []);
          })
          none_left))

abbrev schema_cache : SchemaCache
schema_cache = record {
  schema_hash = "a";
  previous_hash = "";
  has_manager = true;
  tables = "books" ∷ [];
}

abbrev guard : Guard
guard = record {
  schema_mismatch_at = some 10;
  last_recompute_at = some 10;
  schema_mismatch_metric = 1;
  cache = schema_cache;
}

abbrev moment : Moment
moment = record { now = 400_000_000_000; compute = λ tables. ok "abc"; gap = false }

abbrev apply_event : ChangeLogEvent → ℕ → Outcome × ℕ
apply_event e n = (ok tt, suc n)

validate-Sound_example :
    Sound apply_event first_event 0
      (validate_and_replicate_with_schema apply_event moment first_event guard 0)
validate-Sound_example = validate-Sound apply_event moment first_event guard 0

abbrev incoming : Delivery Message
incoming = record {
  metadata = ok ("changes-1", 5);
  payload = record { body = 7 ∷ 3 ∷ 11 ∷ []; moment = moment };
  in_progress = λ attempt. ok tt;
  ack_result = ok tt;
  save_io = record { seek = ok tt; encode = ok tt; torn = [] };
}

invoke_is_unchecked_example :
    invoke_listener_with_schema_validation toy_codec
      (λ bytes. ok bytes)
      apply_event
      apply_event
      incoming
      (guard, 0)
    ≡ invoke_unchecked toy_codec (λ bytes. ok bytes) apply_event apply_event incoming (guard, 0)
invoke_is_unchecked_example =
    invoke_is_unchecked toy_codec (λ bytes. ok bytes) apply_event apply_event incoming (guard, 0)
