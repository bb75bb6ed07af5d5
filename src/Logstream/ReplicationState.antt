-- ===== src/Logstream/ReplicationState.antt =====
-- logstream/replication_state.go: the sequence map, in memory and in its file.
-- The mutex is not modelled: each method holds it throughout, so the calls are atomic steps.
-- `cbor` and the file system are outside the repository. What a call of them returns is an
-- argument (`SaveIo`, `InitIo`), and the encoding is the parameter `Cbor`.
pub mod Laws
pub mod Durable
use harmonylite.Prelude.{
  length, drop, Dict, lookup, insert, ℕ, String, ◌≡◌, Bool, false, Option, none, some, List, [],
  ◌∷◌, ◌++◌, leb, if◌then◌else◌, Result, Outcome, not_initialized, ok, err, string_eq, nat_eq,
  ◌>>=◌, ◌>>◌,
}

-- The encoder writes one value. The stream decoder reads the first value and leaves the rest.
-- A decoded map may list its entries in another order.
pub record Cbor : Type 0 where
  pub encode : Dict String ℕ → List ℕ
  pub decode : List ℕ → Result (Dict String ℕ)
  pub encode_nonempty : (m : Dict String ℕ) → (b : ℕ) × (rest : List ℕ) × (encode m ≡ b ∷ rest)
  pub decode_encode :
      (m : Dict String ℕ) (rest : List ℕ)
      → (m' : Dict String ℕ) × (decode (encode m ++ rest) ≡ ok m')
        × ((k : String) → lookup k m' ≡ lookup k m)

-- `fl` is the content of the open file, and `none` where no file was opened.
pub record ReplicationState : Type 0 where
  pub seq : Dict String ℕ
  pub fl : Option (List ℕ)

-- What `OpenFile`, the two `Seek`s and the file's old content are at start.
pub record InitIo : Type 0 where
  pub open_file : Outcome
  pub seek_end : Outcome
  pub seek_start : Outcome
  pub content : List ℕ

-- A decoding that fails leaves the error, and the caller drops the state.
unfoldable pub decode_into : Cbor → List ℕ → Result ReplicationState
decode_into c [] = ok (record { seq = []; fl = some [] })
decode_into c (b ∷ bytes) = do
  m ← c.decode (b ∷ bytes)
  ok (record { seq = m; fl = some (b ∷ bytes) })

-- An empty file is not decoded, and `Seek(0, SeekStart)` is not called for it.
seek_back : InitIo → Outcome
seek_back io = elim io.content [ [] ↦ ok tt | b ∷ bytes ↦ io.seek_start ]

unfoldable pub init : InitIo → Cbor → Result ReplicationState
unfolding decode_into seek_back
init io c = do io.open_file; io.seek_end; seek_back io; decode_into c io.content

-- What `Seek` and the encoder return, and the file's content if the encoder fails.
pub record SaveIo : Type 0 where
  pub seek : Outcome
  pub encode : Outcome
  pub torn : List ℕ

-- Writing at the start of the file with no truncation.
abbrev pub overlay : List ℕ → List ℕ → List ℕ
overlay new old = new ++ drop (length new) old

-- `found && seq <= old`
abbrev pub is_known : Option ℕ → ℕ → Bool
is_known none seq = Bool.false
is_known (some old) seq = leb seq old

abbrev pub or_zero : Option ℕ → ℕ
or_zero none = 0
or_zero (some old) = old

-- The map in memory is changed before it is encoded, and stays changed if that fails.
write : SaveIo → Cbor → ReplicationState → List ℕ → String → ℕ → Result ℕ × ReplicationState
write io c r bytes stream_name seq =
    let m = insert stream_name seq r.seq in
    elim io.seek [
      | err e ↦ (err e, r)
      | ok _ ↦ elim io.encode [
        | err e ↦ (err e, record { seq = m; fl = some io.torn })
        | ok _ ↦ (ok seq, record { seq = m; fl = some (overlay (c.encode m) bytes) })
      ]
    ]

unfoldable pub save : SaveIo → Cbor → ReplicationState → String → ℕ → Result ℕ × ReplicationState
unfolding write
save io c r stream_name seq = elim r.fl [
  | none ↦ (err not_initialized, r)
  | some bytes ↦
      let old = lookup stream_name r.seq in
      if is_known old seq then (ok (or_zero old), r) else write io c r bytes stream_name seq
]

unfoldable pub get : ReplicationState → String → ℕ
get r stream_name = or_zero (lookup stream_name r.seq)
