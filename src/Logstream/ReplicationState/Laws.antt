-- ===== src/Logstream/ReplicationState/Laws.antt =====
-- What `save`, `get` and `init` of logstream/replication_state.go guarantee together.
use Prim.Native.Nat.{max}
use harmonylite.Prelude.{
  entries, string_eq, ℕ, ◌≤◌, ◌<◌, String, ◌≡◌, ◌≢◌, inl, inr, none, some, List, arith,
  if◌then◌else◌, Option-cases, Result, ok, err,
}
use harmonylite.Logstream.ReplicationState.{Cbor, ReplicationState, SaveIo, save, get}

-- A result that is a number is at least `n`.
abbrev pub AtLeast : ℕ → Result ℕ → Type 0
AtLeast n (ok v) = n ≤ v
AtLeast n (err e) = Unit {0}

module _ (io : SaveIo) (c : Cbor) (r : ReplicationState) (name : String) (seq : ℕ) where
  -- A save that succeeds returns the larger of the new and the stored sequence, stores it under
  -- the name, and leaves what `get` returns for every other name.
  pub get-save :
      (v : ℕ)
      → (save io c r name seq).0 ≡ ok v
      → (v ≡ max seq (get r name))
        × ((j : String)
            → get (save io c r name seq).1 j ≡ (if string_eq.beq name j then v else get r j))
  unfolding save get
  get-save v h = (ground arith, λ j. grind entries)

  -- Whatever fails, no stored sequence ever goes down.
  pub get-save_mono : (j : String) → get r j ≤ get (save io c r name seq).1 j
  unfolding save get
  get-save_mono j = grind entries

  -- The form that the listener's proofs use.
  pub save-AtLeast : AtLeast seq (save io c r name seq).0
  unfolding save
  save-AtLeast = ground arith

-- A sequence that the map already covers is answered from the map, which stays as it is.
pub save_known :
    (io : SaveIo) (c : Cbor) (r : ReplicationState) (name : String) (seq : ℕ) (bytes : List ℕ)
    → r.fl ≡ some bytes
    → 0 < seq
    → seq ≤ get r name
    → save io c r name seq ≡ (ok (get r name), r)
unfolding save get
save_known io c r name seq bytes f p h = ground arith

-- With a file open and nothing failing, a save above the stored sequence succeeds.
pub save_fresh :
    (io : SaveIo) (c : Cbor) (r : ReplicationState) (name : String) (seq : ℕ) (bytes : List ℕ)
    → r.fl ≡ some bytes
    → get r name < seq
    → io.seek ≡ ok tt
    → io.encode ≡ ok tt
    → (save io c r name seq).0 ≡ ok seq
unfolding save get
save_fresh io c r name seq bytes f p hs he = ground arith

save_opened_ne :
    (io : SaveIo) (c : Cbor) (r : ReplicationState) (name : String) (seq v : ℕ)
    → (save io c r name seq).0 ≡ ok v
    → (save io c r name seq).1.fl ≢ none
unfolding save
save_opened_ne io c r name seq v h = ground arith

-- A save that succeeds had a file to write to, and leaves one.
pub save_opened :
    (io : SaveIo) (c : Cbor) (r : ReplicationState) (name : String) (seq v : ℕ)
    → (save io c r name seq).0 ≡ ok v
    → (bytes : List ℕ) × ((save io c r name seq).1.fl ≡ some bytes)
save_opened io c r name seq v h = elim (Option-cases (save io c r name seq).1.fl) [
  | inl e ↦ absurd (save_opened_ne io c r name seq v h e)
  | inr found ↦ found
]
