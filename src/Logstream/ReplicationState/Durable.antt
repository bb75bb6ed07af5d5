-- ===== src/Logstream/ReplicationState/Durable.antt =====
-- What a restart reads back from the file of logstream/replication_state.go.
use harmonylite.Prelude.{
  Dict, insert, ℕ, String, ◌≡◌, refl, sym, ap, subst, ◌⊎◌, inl, inr, none, some, List, [], ◌∷◌,
  ◌++◌, arith, ok, string_eq, nat_eq,
}
use harmonylite.Logstream.ReplicationState.{
  Cbor, ReplicationState, InitIo, SaveIo, init, decode_into, save, get, overlay, or_zero,
}

-- The file decodes to a state with the same sequences.
pub record IsDurable (c : Cbor) (r : ReplicationState) : Type 0 where
  pub bytes : List ℕ
  pub opened : r.fl ≡ some bytes
  pub restored : ReplicationState
  pub decodes : decode_into c bytes ≡ ok restored
  pub same : (k : String) → get restored k ≡ get r k

decode_into-encode :
    (c : Cbor) (m : Dict String ℕ) (rest : List ℕ) (r : ReplicationState)
    → r.seq ≡ m
    → r.fl ≡ some (c.encode m ++ rest)
    → IsDurable c r
unfolding decode_into get
decode_into-encode c m rest r es ef =
    let (b, tail, e) = c.encode_nonempty m in
    let (m', d, l) = c.decode_encode m rest in
    record {
      bytes = b ∷ (tail ++ rest);
      opened = rw ef (rw e refl);
      restored = record { seq = m'; fl = some (b ∷ (tail ++ rest)) };
      decodes = rw (rw e at d);
      same = λ k. rw es (ap or_zero (l k));
    }

-- A save that succeeds changes nothing, or writes the new map over the start of the file.
save_cases :
    (io : SaveIo) (c : Cbor) (r : ReplicationState) (name : String) (seq v : ℕ) (bytes : List ℕ)
    → (save io c r name seq).0 ≡ ok v
    → r.fl ≡ some bytes
    → ((save io c r name seq).1 ≡ r)
      ⊎ ((save io c r name seq).1 ≡ record {
        seq = insert name seq r.seq;
        fl = some (overlay (c.encode (insert name seq r.seq)) bytes);
      })
unfolding save
save_cases io c r name seq v bytes h f = ground arith

-- A save that succeeds keeps the file in step with memory, though it never truncates it.
pub save-IsDurable :
    (io : SaveIo) (c : Cbor) (r : ReplicationState) (name : String) (seq v : ℕ)
    → (save io c r name seq).0 ≡ ok v
    → IsDurable c r
    → IsDurable c (save io c r name seq).1
save-IsDurable io c r name seq v h d = elim (save_cases io c r name seq v d.bytes h d.opened) [
  | inl e ↦ subst (IsDurable c) (sym e) d
  | inr e ↦ subst (IsDurable c) (sym e) (decode_into-encode c (insert name seq r.seq) _ _ refl refl)
]

decode_into-fl :
    (c : Cbor) (bytes : List ℕ) (r : ReplicationState)
    → decode_into c bytes ≡ ok r
    → r.fl ≡ some bytes
unfolding decode_into
decode_into-fl c [] r h = ground arith
decode_into-fl c (b ∷ bytes) r h = ground arith

-- What a restart reads back is durable itself.
pub restored-IsDurable :
    (c : Cbor) (r : ReplicationState) (d : IsDurable c r) → IsDurable c d.restored
restored-IsDurable c r d = record {
  bytes = d.bytes;
  opened = decode_into-fl c d.bytes d.restored d.decodes;
  restored = d.restored;
  decodes = d.decodes;
  same = λ k. refl;
}

-- A restart that can open and seek the file of a durable state succeeds, and finds every sequence.
pub init_restores :
    (io : InitIo) (c : Cbor) (r : ReplicationState)
    → (d : IsDurable c r) → io.open_file ≡ ok tt
    → io.seek_end ≡ ok tt
    → io.seek_start ≡ ok tt
    → io.content ≡ d.bytes
    → (r' : ReplicationState) × (init io c ≡ ok r') × ((k : String) → get r' k ≡ get r k)
unfolding init
init_restores io c r d eo ee es ec = (d.restored, ground (arith, d.decodes), d.same)

-- What the file system left when a saved state's process ended: the file, and nothing failing.
abbrev pub reopen : ReplicationState → InitIo
reopen r = record {
  open_file = ok tt;
  seek_end = ok tt;
  seek_start = ok tt;
  content = elim r.fl [ none ↦ [] | some bytes ↦ bytes ];
}

pub init-reopen :
    (c : Cbor) (r : ReplicationState) (d : IsDurable c r) → init (reopen r) c ≡ ok d.restored
unfolding init
init-reopen c r d = rw (d.opened, reopen) (ground (arith, d.decodes))

-- After a save that succeeds in a durable state, a restart finds every sequence of the map.
pub restart_after_save :
    (io : SaveIo) (c : Cbor) (r : ReplicationState) (name : String) (seq v : ℕ)
    → IsDurable c r
    → (save io c r name seq).0 ≡ ok v
    → let saved = (save io c r name seq).1 in
      (r' : ReplicationState) × (init (reopen saved) c ≡ ok r')
      × ((k : String) → get r' k ≡ get saved k)
restart_after_save io c r name seq v d h =
    let d' = save-IsDurable io c r name seq v h d in
    init_restores (reopen (save io c r name seq).1) c (save io c r name seq).1 d' refl refl refl
      (rw (d'.opened, reopen) refl)
