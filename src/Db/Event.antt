-- ===== src/Db/Event.antt =====
-- db/change_log_event.go: an event of the change log, and its preparation for the wire.
-- A value is what the SQLite driver or the CBOR decoder puts into an `any`. Integers, floats and
-- times are 64-bit patterns; `int` is an `int64` or a `uint64`, which CBOR gives for an `int64` that is
-- not negative. `wrapper` is `sensitiveTypeWrapper`, and `time_ptr` the `*time.Time`
-- that it holds. The RW lock on the key cache is not modelled: each call is an atomic step.
pub mod Hashing
use harmonylite.Prelude.{
  tests, Dict, lookup, ℕ, String, ◌≡◌, refl, sym, ap, ◌∙◌, inl, inr, Bool, true, false, ◌||◌,
  Option, none, some, List, [], ◌∷◌, arith, if◌then◌else◌, Bool-cases, Result, ok, string_eq,
  nat_eq,
}

pub data Value : Type 0 where
  null : Value
  bool : Bool → Value
  int : ℕ → Value
  real : ℕ → Value
  text : String → Value
  blob : List ℕ → Value
  time : ℕ → Value
  wrapper : Option ℕ → Value
  time_ptr : Option ℕ → Value

abbrev pub Row : Type 0
Row = Dict String Value

pub record ColumnInfo : Type 0 where
  pub name : String
  pub type : String
  pub not_null : Bool
  pub default_value : Value
  pub primary_key_index : ℕ
  pub is_primary_key : Bool

pub record ChangeLogEvent : Type 0 where
  pub id : ℕ
  pub type : String
  pub table_name : String
  pub row : Row
  pub schema_hash : String
  pub table_info : List ColumnInfo

-- `v.(time.Time)`
abbrev pub is_time : Value → Bool
is_time (time t) = true
is_time _ = false

pub prepare_value : Value → Value
prepare_value (time t) = wrapper (some t)
prepare_value v = v

needs_transform : Row → Bool
needs_transform [] = false
needs_transform ((k, v) ∷ row) = is_time v || needs_transform row

-- `m2[k] = f(v)` for each entry of a map whose keys are distinct.
pub map_values : (Value → Value) → Row → Row
map_values f [] = []
map_values f ((k, v) ∷ row) = (k, f v) ∷ map_values f row

unfoldable pub prepare : ChangeLogEvent → ChangeLogEvent
unfolding needs_transform prepare_value map_values
prepare e =
    if needs_transform e.row
    then record {
      id = e.id;
      type = e.type;
      table_name = e.table_name;
      row = map_values prepare_value e.row;
      schema_hash = "";
      table_info = e.table_info;
    }
    else e

unfoldable pub wrap : ChangeLogEvent → Result ChangeLogEvent
unfolding prepare
wrap e = ok (prepare e)

-- `GetValue` is the pointer that the wrapper holds.
pub unwrap_value : Value → Value
unwrap_value (wrapper t) = time_ptr t
unwrap_value v = v

unfoldable pub unwrap : ChangeLogEvent → Result ChangeLogEvent
unfolding unwrap_value map_values
unwrap e = ok (record {
  id = e.id;
  type = e.type;
  table_name = e.table_name;
  row = map_values unwrap_value e.row;
  schema_hash = "";
  table_info = e.table_info;
})

-- A wrapped time in a precision; all else as it is.
abbrev pub in_precision : (ℕ → ℕ) → Value → Value
in_precision precision (wrapper (some t)) = wrapper (some (precision t))
in_precision precision v = v

-- The value that a receiver sees: a time arrives as a pointer and in the precision of the encoding,
-- all else as it is.
abbrev pub received : (ℕ → ℕ) → Value → Value
received precision (time t) = time_ptr (some (precision t))
received precision (wrapper (some t)) = time_ptr (some (precision t))
received precision (wrapper none) = time_ptr none
received precision v = v

abbrev pub map_value : (Value → Value) → Option Value → Option Value
map_value f none = none
map_value f (some v) = some (f v)

pub lookup-map_values :
    (f : Value → Value) (k : String) (row : Row)
    → lookup k (map_values f row) ≡ map_value f (lookup k row)
unfolding map_values lookup
lookup-map_values f k [] = refl
lookup-map_values f k ((j, v) ∷ row) = grind (tests, lookup-map_values f k row)

-- `v.(*time.Time)`, which a row has only after it was received.
abbrev pub is_pointer : Value → Bool
is_pointer (time_ptr t) = true
is_pointer _ = false

-- No entry is a pointer to a time.
abbrev pub HasNoPointer : Row → Type 0
HasNoPointer [] = Unit {0}
HasNoPointer ((k, v) ∷ row) = (is_pointer v ≡ false) × HasNoPointer row

-- No entry is a time without its wrapper.
abbrev pub IsPlain : Row → Type 0
IsPlain [] = Unit {0}
IsPlain ((k, v) ∷ row) = (is_time v ≡ false) × (is_pointer v ≡ false) × IsPlain row

map_values-IsPlain : (row : Row) → HasNoPointer row → IsPlain (map_values prepare_value row)
unfolding map_values prepare_value
map_values-IsPlain [] h = tt
map_values-IsPlain ((k, v) ∷ row) (p, h) = (plain v, direct v p, map_values-IsPlain row h)
  where
    plain : (v : Value) → is_time (prepare_value v) ≡ false
    plain (time t) = refl
    plain _ = refl

    direct : (v : Value) → is_pointer v ≡ false → is_pointer (prepare_value v) ≡ false
    direct (time t) q = refl
    direct _ q = q

untouched-IsPlain : (row : Row) → needs_transform row ≡ false → HasNoPointer row → IsPlain row
unfolding needs_transform
untouched-IsPlain [] h p = tt
untouched-IsPlain ((k, v) ∷ row) h (p, ps) =
    (ground arith, p, untouched-IsPlain row (ground arith) ps)

-- A prepared event holds no time without its wrapper.
pub prepare-IsPlain : (e : ChangeLogEvent) → HasNoPointer e.row → IsPlain (prepare e).row
unfolding prepare
prepare-IsPlain e p = elim (Bool-cases (needs_transform e.row)) [
  | inl h ↦ rw h (map_values-IsPlain e.row p)
  | inr h ↦ rw h (untouched-IsPlain e.row h p)
]

map_values-plain : (row : Row) → needs_transform row ≡ false → map_values prepare_value row ≡ row
unfolding needs_transform map_values prepare_value
map_values-plain [] h = refl
map_values-plain ((k, v) ∷ row) h = ground (arith, map_values-plain row)

-- A prepared row is the row with its times wrapped, whether anything had to change or not.
pub row-prepare : (e : ChangeLogEvent) → (prepare e).row ≡ map_values prepare_value e.row
unfolding prepare
row-prepare e = elim (Bool-cases (needs_transform e.row)) [
  | inl h ↦ rw h refl
  | inr h ↦ rw h (sym (map_values-plain e.row h))
]

unwrap-prepare_value :
    (precision : ℕ → ℕ) (v : Value)
    → unwrap_value (in_precision precision (prepare_value v)) ≡ received precision v
unfolding unwrap_value prepare_value
unwrap-prepare_value precision (time t) = refl
unwrap-prepare_value precision (wrapper none) = refl
unwrap-prepare_value precision (wrapper (some t)) = refl
unwrap-prepare_value precision _ = refl

-- What preparation leaves alone.
pub prepare_keeps :
    (e : ChangeLogEvent)
    → ((prepare e).id ≡ e.id)
      × ((prepare e).type ≡ e.type)
      × ((prepare e).table_name ≡ e.table_name)
      × ((prepare e).table_info ≡ e.table_info)
unfolding prepare
prepare_keeps e = ground arith

-- Through preparation and back, a row holds what a receiver sees.
pub lookup-unwrap-prepare :
    (precision : ℕ → ℕ) (k : String) (row : Row) (e : ChangeLogEvent)
    → ((j : String) → lookup j row ≡ map_value (in_precision precision) (lookup j (prepare e).row))
    → lookup k (map_values unwrap_value row) ≡ map_value (received precision) (lookup k e.row)
lookup-unwrap-prepare precision k row e h =
    lookup-map_values unwrap_value k row
    ∙ ap (map_value unwrap_value) (h k)
    ∙ rw (row-prepare e, lookup-map_values) (at_value (lookup k e.row))
  where
    at_value :
        (o : Option Value)
        → map_value unwrap_value (map_value (in_precision precision) (map_value prepare_value o))
          ≡ map_value (received precision) o
    at_value none = refl
    at_value (some v) = ap some (unwrap-prepare_value precision v)
