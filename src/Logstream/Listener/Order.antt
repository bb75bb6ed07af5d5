-- ===== src/Logstream/Listener/Order.antt =====
-- The order in which the listeners of logstream/replicator.go and logstream/listen_with_db.go
-- apply messages.
use mathlib.Core.List.{append-nil, append_assoc}
use harmonylite.Prelude.{
  ℕ, ◌≤◌, ◌<◌, String, ◌≡◌, refl, sym, subst, ◌⊎◌, inl, inr, List, [], ◌∷◌, ◌++◌, arith, Result,
  Outcome, ok, err,
}
use harmonylite.Logstream.ReplicationState.{Cbor, ReplicationState, get}
use harmonylite.Logstream.ReplicationState.Laws.{save-AtLeast}
use harmonylite.Logstream.Listener.{
  Delivery, Poll, timeout, failed, message, published, Listening, Turn, go, stop, on_message, turn,
  loop, listen, after,
}

-- The sequences rise strictly, from above a bound.
abbrev pub Ascends : ℕ → List ℕ → Type 0
Ascends n [] = Unit {0}
Ascends n (k ∷ ks) = (n < k) × Ascends k ks

Ascends-lower : (m n : ℕ) (ks : List ℕ) → m ≤ n → Ascends n ks → Ascends m ks
Ascends-lower m n [] h a = tt
Ascends-lower m n (k ∷ ks) h a = (omega arith, a.1)

abbrev pub seq_of : {P : Type 0} → Delivery P → ℕ
seq_of d = elim d.metadata [ ok (stream, seq) ↦ seq | err _ ↦ 0 ]

module _ {P W : Type 0} (c : Cbor) (invoke : Delivery P → W → Outcome × W) where
  -- The callback, with a note of each sequence that it is called for.
  abbrev pub noting : Delivery P → W × List ℕ → Outcome × (W × List ℕ)
  noting d w = let (r, w') = invoke d w.0 in (r, (w', w.1 ++ seq_of d ∷ []))

  -- What a turn over the sequence `k` may do to the note: nothing, or add `k`, above the saved one.
  abbrev Advances : ℕ → Listening (W × List ℕ) → Turn (W × List ℕ) → Type 0
  Advances k s (go t) =
      ((t.world.1 ≡ s.world.1) × (t.saved_seq ≡ s.saved_seq))
      ⊎ ((t.world.1 ≡ s.world.1 ++ k ∷ []) × (s.saved_seq < k) × (k ≤ t.saved_seq))
  Advances k s (stop r t) =
      (t.world.1 ≡ s.world.1) ⊎ ((t.world.1 ≡ s.world.1 ++ k ∷ []) × (s.saved_seq < k))

  message-Advances :
      (d : Delivery P) (stream : String) (seq : ℕ) (s : Listening (W × List ℕ))
      → seq_of d ≡ seq
      → Advances seq s (on_message c noting d stream seq s)
  unfolding on_message
  message-Advances d stream seq s e =
      ground (arith, save-AtLeast d.save_io c s.rep_state stream seq)

  turn-Advances :
      (p : Poll P) (s : Listening (W × List ℕ)) → (k : ℕ) × Advances k s (turn c noting p s)
  unfolding turn
  turn-Advances timeout s = (0, inl (refl, refl))
  turn-Advances (failed e) s = (0, inl refl)
  turn-Advances (published io stream seq) s = (0, inl (refl, refl))
  turn-Advances (message d) s = (seq_of d, on_metadata d.metadata refl)
    where
      on_metadata :
          (m : Result (String × ℕ))
          → d.metadata ≡ m
          → Advances (seq_of d) s (turn c noting (message d) s)
      on_metadata (err e) h = rw (h, turn) (inl refl)
      on_metadata (ok (stream, seq)) h = rw (h, turn) (message-Advances d stream seq s (rw h refl))

  abbrev Appends : ℕ → List ℕ → Listening (W × List ℕ) → Type 0
  Appends n log t = (new : List ℕ) × (t.world.1 ≡ log ++ new) × Ascends n new

  stop-Appends :
      (k : ℕ) (s : Listening (W × List ℕ)) (r : Outcome) (t : Listening (W × List ℕ))
      → Advances k s (stop r t)
      → Appends s.saved_seq s.world.1 t
  stop-Appends k s r t (inl e) = ([], rw e (sym (append-nil s.world.1)), tt)
  stop-Appends k s r t (inr (e, below)) = (k ∷ [], e, (below, tt))

  go-Appends :
      (k : ℕ) (s t u : Listening (W × List ℕ))
      → Advances k s (go t)
      → Appends t.saved_seq t.world.1 u
      → Appends s.saved_seq s.world.1 u
  go-Appends k s t u (inl (e, f)) (new, g, a) = (new, rw (← e) g, rw (← f) a)
  go-Appends k s t u (inr (e, below, above)) (new, g, a) = (
    k ∷ new,
    rw g (rw e (append_assoc s.world.1 (k ∷ []) new)),
    (below, Ascends-lower k t.saved_seq new above a),
  )

  loop-Appends :
      (ps : List (Poll P)) (s : Listening (W × List ℕ))
      → Appends s.saved_seq s.world.1 (loop c noting ps s).1
  unfolding loop
  loop-Appends [] s = ([], sym (append-nil s.world.1), tt)
  loop-Appends (p ∷ ps) s = on_turn (loop-Appends ps) (turn c noting p s) (turn-Advances p s).1
    where
      on_turn :
          ((t : Listening (W × List ℕ)) → Appends t.saved_seq t.world.1 (loop c noting ps t).1)
          → (x : Turn (W × List ℕ)) → Advances (turn-Advances p s).0 s x
          → Appends s.saved_seq s.world.1 (after x (loop c noting ps)).1
      on_turn rest (go t) a = go-Appends (turn-Advances p s).0 s t (loop c noting ps t).1 a (rest t)
      on_turn rest (stop r t) a = stop-Appends (turn-Advances p s).0 s r t a

  -- Whatever the server delivers, in any order and as often as it likes, whichever calls fail, and
  -- whatever another thread saves meanwhile, the callback is called for strictly rising sequences,
  -- all above the one that the map held at the start.
  pub listen-Ascends :
      (subscribe : Outcome) (stream_name : String) (ps : List (Poll P)) (rep : ReplicationState)
      (w : W)
      → Ascends
          (get rep stream_name)
          (listen c noting subscribe stream_name ps rep (w, [])).1.world.1
  unfolding listen
  listen-Ascends (err e) stream_name ps rep w = tt
  listen-Ascends (ok _) stream_name ps rep w =
      let (new, e, a) = loop-Appends ps (record {
        saved_seq = get rep stream_name;
        rep_state = rep;
        world = (w, []);
        replies = [];
      }) in
      subst (Ascends (get rep stream_name)) (sym e) a
