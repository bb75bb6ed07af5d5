-- ===== src/Logstream/Listener/Skipped.antt =====
-- The loop of logstream/replicator.go after `Publish` of the same node moved the shared sequence map.
use text.Mathlib.TextPositions.{eq_refl}
use harmonylite.Prelude.{
  ℕ, ◌≤◌, ◌<◌, String, ◌≡◌, refl, ap, ◌∙◌, some, List, [], ◌∷◌, ◌++◌, map, arith, Outcome, ok,
}
use harmonylite.Logstream.ReplicationState.Laws.{save_opened, save_known, get-save}
use harmonylite.Logstream.Listener.{
  Delivery, turn, loop, on_message, Listening, message, go, published, ack, loop_go,
}
use harmonylite.Logstream.ReplicationState.{Cbor, SaveIo, get, save}

-- Every delivery has a sequence of at most `n`.
abbrev pub UpTo : {P : Type 0} → ℕ → List (Delivery P) → Type 0
UpTo n [] = Unit {0}
UpTo n (d ∷ ds) =
    ((stream : String) × (j : ℕ) × (d.metadata ≡ ok (stream, j)) × (j ≤ n)) × UpTo n ds

module _ {P W : Type 0} (c : Cbor) (invoke : Delivery P → W → Outcome × W) where
  pub turn_covered :
      (d : Delivery P) (stream : String) (j : ℕ) (s : Listening W)
      → d.metadata ≡ ok (stream, j)
      → j ≤ s.saved_seq
      → turn c invoke (message d) s ≡ go s
  unfolding turn on_message
  turn_covered d stream j s e h = ground arith

  -- Deliveries up to the saved sequence change nothing.
  pub loop_covered :
      (ds : List (Delivery P)) (s : Listening W)
      → UpTo s.saved_seq ds
      → loop c invoke (map message ds) s ≡ (ok tt, s)
  unfolding loop
  loop_covered [] s h = refl
  loop_covered (d ∷ ds) s ((stream, j, e, le), h) =
      loop_go c invoke (message d) (map message ds) s s (turn_covered d stream j s e le)
      ∙ loop_covered ds s h

  -- A turn that applies a message which the map already covers takes over the map's sequence.
  turn_overtaken :
      (d : Delivery P) (stream : String) (k : ℕ) (s : Listening W) (bytes : List ℕ)
      → d.metadata ≡ ok (stream, k)
      → s.saved_seq < k
      → s.rep_state.fl ≡ some bytes
      → k ≤ get s.rep_state stream
      → (invoke d s.world).0 ≡ ok tt
      → d.ack_result ≡ ok tt
      → turn c invoke (message d) s
        ≡ go (record {
          saved_seq = get s.rep_state stream;
          rep_state = s.rep_state;
          world = (invoke d s.world).1;
          replies = s.replies ++ ack k ∷ [];
        })
  unfolding turn on_message
  turn_overtaken d stream k s bytes e lt f le i a =
      ground (arith, save_known d.save_io c s.rep_state stream k bytes f)

  -- The loop waits below `k`, `Publish` saves its own message `n`, at least `k`, and then the
  -- messages of other nodes arrive: the first, `k`, is applied and acknowledged, and none of
  -- those that follow up to `n` is applied.
  pub publish_skips :
      (io : SaveIo) (stream : String) (n k : ℕ) (d : Delivery P) (ds : List (Delivery P))
      (s : Listening W)
      → (save io c s.rep_state stream n).0 ≡ ok n
      → d.metadata ≡ ok (stream, k)
      → s.saved_seq < k
      → k ≤ n
      → (invoke d s.world).0 ≡ ok tt
      → d.ack_result ≡ ok tt
      → UpTo n ds
      → (loop c invoke (published io stream n ∷ message d ∷ map message ds) s).1.world
        ≡ (invoke d s.world).1
  unfolding loop turn
  publish_skips io stream n k d ds s saved e lt le i a covered =
      let (bytes, f) = save_opened io c s.rep_state stream n n saved in
      let now = (get-save io c s.rep_state stream n n saved).1 stream in
      let at_n : get (save io c s.rep_state stream n).1 stream ≡ n = rw now (rw eq_refl refl) in
      let s' : Listening W = record s { rep_state = (save io c s.rep_state stream n).1 } in
      let t : Listening W = record {
        saved_seq = get s'.rep_state stream;
        rep_state = s'.rep_state;
        world = (invoke d s.world).1;
        replies = s.replies ++ ack k ∷ [];
      } in
      ap (λ x. x.1.world)
        (loop_go c invoke (message d) (map message ds) s' t
            (turn_overtaken d stream k s' bytes e lt f (rw at_n le) i a)
          ∙ loop_covered ds t (rw at_n covered))
