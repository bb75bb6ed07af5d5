-- ===== src/Tests/Codecs.antt =====
-- Encodings with the laws that the development relies on.
use Prim.Native.Nat.{compare, Ordering}
use Prim.Native.Char.{Char, code, nul, IsScalar, char}
use Prim.Native.String.{◌∷◌ as cons_char}
use package.text.Mathlib.TextEquality.{Char-path}
use harmonylite.Prelude.{
  tests, Dict, ◌≐◌, lookup, ℕ, zero, suc, String, ◌≡◌, refl, sym, ap, ◌∙◌, ◌⊎◌, inl, inr, ◌&&◌,
  Option, none, some, List, [], ◌∷◌, ◌++◌, arith, if◌then◌else◌, Bool-cases, Result, ◌>>=◌,
  not_initialized, invalid_operation, ok, err, string_eq, nat_eq,
}
use harmonylite.Db.Event.{
  Value, Row, int, bool, real, text, blob, time, wrapper, time_ptr, null, map_value, in_precision,
}
use harmonylite.Logstream.ReplicationEvent.{ReplicationEvent, blank, Arrives, EventCodec}
use harmonylite.Logstream.MetaStore.{LockInfo, LeaseCodec}
use harmonylite.Logstream.ReplicationState.{Cbor}

decide : (n : ℕ) → IsScalar n ⊎ (¬ IsScalar n)
decide n = by_first (compare n 55296) refl
  where
    by_third :
        (o : Ordering)
        → compare n 1114112 ≡ o
        → (compare n 55296 ≡ Ordering.eq) ⊎ (compare n 55296 ≡ Ordering.gt)
        → compare 57343 n ≡ Ordering.lt
        → IsScalar n ⊎ (¬ IsScalar n)
    by_third Ordering.lt e (inl a) b = inl (rw (a, b, e) tt)
    by_third Ordering.eq e (inl a) b = inr (rw (a, b, e) (λ p. p))
    by_third Ordering.gt e (inl a) b = inr (rw (a, b, e) (λ p. p))
    by_third Ordering.lt e (inr a) b = inl (rw (a, b, e) tt)
    by_third Ordering.eq e (inr a) b = inr (rw (a, b, e) (λ p. p))
    by_third Ordering.gt e (inr a) b = inr (rw (a, b, e) (λ p. p))

    by_second :
        (o : Ordering)
        → compare 57343 n ≡ o
        → (compare n 55296 ≡ Ordering.eq) ⊎ (compare n 55296 ≡ Ordering.gt)
        → IsScalar n ⊎ (¬ IsScalar n)
    by_second Ordering.lt e a = by_third (compare n 1114112) refl a e
    by_second Ordering.eq e (inl a) = inr (rw (a, e) (λ p. p))
    by_second Ordering.eq e (inr a) = inr (rw (a, e) (λ p. p))
    by_second Ordering.gt e (inl a) = inr (rw (a, e) (λ p. p))
    by_second Ordering.gt e (inr a) = inr (rw (a, e) (λ p. p))

    by_first : (o : Ordering) → compare n 55296 ≡ o → IsScalar n ⊎ (¬ IsScalar n)
    by_first Ordering.lt e = inl (rw e tt)
    by_first Ordering.eq e = by_second (compare 57343 n) refl (inl e)
    by_first Ordering.gt e = by_second (compare 57343 n) refl (inr e)

decided : (n : ℕ) → IsScalar n ⊎ (¬ IsScalar n) → Char
decided n (inl p) = char n p
decided n (inr q) = nul

chr : ℕ → Char
chr n = decided n (decide n)

chr-code : (c : Char) → chr (code c) ≡ c
unfolding chr decided
chr-code (char n p) = by_decision (decide n)
  where
    by_decision : (x : IsScalar n ⊎ (¬ IsScalar n)) → decided n x ≡ char n p
    by_decision (inl q) = Char-path (char n q) (char n p) refl
    by_decision (inr q) = absurd (q p)

pub data Mode : Type 0 where
  entry key value : Mode

unfoldable pub chars : String → List ℕ → List ℕ
chars String.[] rest = 0 ∷ rest
chars (String.◌∷◌ c s) rest = suc (code c) ∷ chars s rest

unfoldable pub entries : Dict String ℕ → List ℕ
unfolding chars
entries [] = 0 ∷ []
entries ((k, v) ∷ m) = 1 ∷ chars k (v ∷ entries m)

pub decode : Mode → List ℕ → String × (ℕ × Dict String ℕ)
unfolding chr
decode mode [] = ("", (0, []))
decode entry (zero ∷ bytes) = ("", (0, []))
decode entry (suc n ∷ bytes) = let (k, (v, m)) = decode key bytes in ("", (0, (k, v) ∷ m))
decode key (zero ∷ bytes) = let (k, (v, m)) = decode value bytes in ("", (v, m))
decode key (suc n ∷ bytes) = let (k, (v, m)) = decode key bytes in (cons_char (chr n) k, (v, m))
decode value (v ∷ bytes) = let (k, (w, m)) = decode entry bytes in ("", (v, m))

chars-append : (s : String) (xs ys : List ℕ) → chars s xs ++ ys ≡ chars s (xs ++ ys)
unfolding chars
chars-append String.[] xs ys = refl
chars-append (String.◌∷◌ c s) xs ys = ap (λ zs. suc (code c) ∷ zs) (chars-append s xs ys)

decode-chars :
    (s : String) (bytes : List ℕ) → decode key (chars s bytes) ≡ (s, (decode value bytes).1)
unfolding decode chars
decode-chars String.[] bytes = refl
decode-chars (String.◌∷◌ c s) bytes = rw (decode-chars s bytes, chr-code c) refl

decode-value :
    (v : ℕ) (bytes : List ℕ) → decode value (v ∷ bytes) ≡ ("", (v, (decode entry bytes).1.1))
unfolding decode
decode-value v bytes = refl

pub decode-entries :
    (m : Dict String ℕ) (rest : List ℕ) → decode entry (entries m ++ rest) ≡ ("", (0, m))
unfolding decode entries
decode-entries [] rest = refl
decode-entries ((k, v) ∷ m) rest =
    rw
      (
        chars-append k (v ∷ entries m) rest,
        decode-chars k (v ∷ (entries m ++ rest)),
        decode-value v (entries m ++ rest),
        decode-entries m rest,
      )
      refl

-- A codec of sequence maps.
abbrev pub toy_cbor : Cbor
toy_cbor = record {
  encode = λ m. 7 ∷ entries m;
  decode = λ bytes. elim bytes [ [] ↦ err not_initialized | b ∷ rest ↦ ok (decode entry rest).1.1 ];
  encode_nonempty = λ m. (7, entries m, refl);
  decode_encode = λ m rest.
      (m, ap (λ (x : String × (ℕ × Dict String ℕ)). ok x.1.1) (decode-entries m rest), (λ k. refl));
}

-- A codec of lease entries.
abbrev pub lock_info : List ℕ → LockInfo → Result LockInfo
lock_info (n ∷ t ∷ []) mine = ok (record { node_id = n; timestamp = t })
lock_info _ mine = err invalid_operation

abbrev pub toy_lease_codec : LeaseCodec
toy_lease_codec = record {
  serialize = λ i. ok (i.node_id ∷ i.timestamp ∷ []);
  deserialize_from = lock_info;
  deserialize-serialize = λ i j bytes e. ap (λ r. r >>= λ b. lock_info b j) (sym e);
}

-- The one event that the codec of events can encode, but for its three numbers.
abbrev pub toy_event : ℕ → ℕ → ℕ → ReplicationEvent
toy_event node id n = record {
  from_node_id = node;
  payload = record {
    id = id;
    type = "insert";
    table_name = "books";
    row = ("id", int n) ∷ [];
    schema_hash = "";
    table_info = [];
  };
}

unfoldable pub int_of : Value → Option ℕ
int_of (int n) = some n
int_of _ = none

int_of-some : (v : Value) (n : ℕ) → int_of v ≡ some n → v ≡ int n
unfolding int_of
int_of-some null n h = cc
int_of-some (bool b) n h = cc
int_of-some (int m) n h = ground arith
int_of-some (real m) n h = cc
int_of-some (text t) n h = cc
int_of-some (blob b) n h = cc
int_of-some (time t) n h = cc
int_of-some (wrapper t) n h = cc
int_of-some (time_ptr t) n h = cc

unfoldable pub encode_int : String → ReplicationEvent → Option ℕ → Result (List ℕ)
encode_int k e none = err invalid_operation
encode_int k e (some n) =
    if k ≐ "id"
      && e.payload.type ≐ "insert"
      && e.payload.table_name ≐ "books"
      && e.payload.schema_hash ≐ ""
    then ok (e.from_node_id ∷ e.payload.id ∷ n ∷ [])
    else err invalid_operation

unfoldable pub encode_row : Row → ReplicationEvent → Result (List ℕ)
unfolding encode_int int_of
encode_row [] e = err invalid_operation
encode_row ((k, v) ∷ []) e = encode_int k e (int_of v)
encode_row (x ∷ y ∷ row) e = err invalid_operation

unfoldable pub decode_event : List ℕ → ReplicationEvent → Result ReplicationEvent
decode_event (a ∷ b ∷ n ∷ []) e = ok (toy_event a b n)
decode_event _ e = err invalid_operation

abbrev Decodes : ReplicationEvent → List ℕ → Type 0
Decodes e bytes =
    (found : ReplicationEvent) × (decode_event bytes blank ≡ ok found) × Arrives (λ t. t) e found

encoded_int :
    (e : ReplicationEvent) (bytes : List ℕ) (k : String) (n : ℕ)
    → encode_int k e (some n) ≡ ok bytes
    → (k ≡ "id")
      × (e.payload.type ≡ "insert")
      × (e.payload.table_name ≡ "books")
      × (e.payload.schema_hash ≡ "")
      × (e.from_node_id ∷ e.payload.id ∷ n ∷ [] ≡ bytes)
unfolding encode_int
encoded_int e bytes k n h = grind tests

not_encoded :
    (k : String) (e : ReplicationEvent) (bytes : List ℕ) → ¬ (encode_int k e none ≡ ok bytes)
unfolding encode_int
not_encoded k e bytes q = cc

kept_int :
    (j : String) (n : ℕ)
    → lookup j (("id", int n) ∷ [])
      ≡ map_value (in_precision (λ t. t)) (lookup j (("id", int n) ∷ []))
unfolding lookup
kept_int j n = elim (Bool-cases ("id" ≐ j)) [ inl e ↦ rw e refl | inr e ↦ rw e refl ]

decode-encode_int :
    (e : ReplicationEvent) (bytes : List ℕ) (k : String) (v : Value) (o : Option ℕ)
    → e.payload.row ≡ (k, v) ∷ []
    → int_of v ≡ o
    → encode_int k e o ≡ ok bytes
    → Decodes e bytes
unfolding decode_event
decode-encode_int e bytes k v none r i h = absurd (not_encoded k e bytes h)
decode-encode_int e bytes k v (some n) r i h =
    let (a, b, c, d, same) = encoded_int e bytes k n h in
    (
      toy_event e.from_node_id e.payload.id n,
      ap (λ x. decode_event x blank) (sym same),
      record {
        from_node_id = refl;
        id = refl;
        type = sym b;
        table_name = sym c;
        row = λ j.
            kept_int j n
            ∙ ap (λ x. map_value (in_precision (λ t. t)) (lookup j x))
                (sym (r ∙ ap (λ x. x ∷ []) (ground (arith, int_of-some v n i))));
        schema_hash = sym d;
        table_info = refl;
      },
    )

pub decode-encode_row :
    (row : Row) (e : ReplicationEvent) (bytes : List ℕ)
    → e.payload.row ≡ row
    → encode_row row e ≡ ok bytes
    → Decodes e bytes
unfolding encode_row
decode-encode_row [] e bytes r h = absurd (no_result h)
  where
    no_result : ¬ (encode_row [] e ≡ ok bytes)
    no_result q = cc
decode-encode_row ((k, v) ∷ []) e bytes r h = decode-encode_int e bytes k v (int_of v) r refl h
decode-encode_row (x ∷ y ∷ row) e bytes r h = absurd (no_result h)
  where
    no_result : ¬ (encode_row (x ∷ y ∷ row) e ≡ ok bytes)
    no_result q = cc

-- A codec of events like `toy_event`.
abbrev pub toy_codec : EventCodec
toy_codec = record {
  enc_mode = ok tt;
  dec_mode = ok tt;
  precision = λ t. t;
  encode = λ e. encode_row e.payload.row e;
  decode = decode_event;
  decode_encode = λ e bytes plain h. decode-encode_row e.payload.row e bytes refl h;
}
