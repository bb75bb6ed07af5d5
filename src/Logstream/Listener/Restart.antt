-- ===== src/Logstream/Listener/Restart.antt =====
-- A listener of logstream/listen_with_db.go that is stopped between two messages, and started again
-- from the file of the sequence map.
use Prim.Native.Nat.{max}
use text.Mathlib.TextPositions.{eq_refl}
use native.Mathlib.Nat.{le_refl}
use harmonylite.Prelude.{
  All, All-append, ℕ, ◌≤◌, ◌<◌, String, ◌≡◌, refl, sym, ap, ◌∙◌, subst, inl, inr, List, [], ◌∷◌,
  ◌++◌, map, arith, leb, if◌then◌else◌, leb→le, le→leb, Bool-cases, Outcome, ok,
}
use harmonylite.Logstream.Listener.Skipped.{turn_covered}
use harmonylite.Logstream.ReplicationState.Laws.{get-save, save_fresh}
use harmonylite.Logstream.ReplicationState.Durable.{
  IsDurable, save-IsDurable, reopen, restored-IsDurable, init-reopen,
}
use harmonylite.Logstream.ReplicationState.{Cbor, get, save, ReplicationState, init}
use harmonylite.Logstream.Listener.Order.{seq_of}
use harmonylite.Logstream.Listener.{
  Delivery, Listening, turn, loop, on_message, message, ack, go, loop_go, listen,
}

-- Nothing fails for this delivery of the stream: not the callback, nor a call outside.
pub record IsHealthy {P W : Type 0} (invoke : Delivery P → W → Outcome × W) (stream : String)
    (d : Delivery P) : Type 0 where
  pub seq : ℕ
  pub metadata : d.metadata ≡ ok (stream, seq)
  pub applies : (w : W) → (invoke d w).0 ≡ ok tt
  pub acks : d.ack_result ≡ ok tt
  pub seeks : d.save_io.seek ≡ ok tt
  pub encodes : d.save_io.encode ≡ ok tt

-- The specification: each message above all earlier ones is applied, the others are not.
pub replay : {P W : Type 0} → (Delivery P → W → Outcome × W) → ℕ → List (Delivery P) → W → W
replay invoke n [] w = w
replay invoke n (d ∷ ds) w =
    if leb (seq_of d) n then replay invoke n ds w else replay invoke (seq_of d) ds (invoke d w).1

-- The largest sequence seen.
pub top : {P : Type 0} → ℕ → List (Delivery P) → ℕ
top n [] = n
top n (d ∷ ds) = top (max n (seq_of d)) ds

module _ {P W : Type 0} (invoke : Delivery P → W → Outcome × W) where
  pub replay-append :
      (n : ℕ) (xs ys : List (Delivery P)) (w : W)
      → replay invoke n (xs ++ ys) w ≡ replay invoke (top n xs) ys (replay invoke n xs w)
  unfolding replay top
  replay-append n [] ys w = refl
  replay-append n (d ∷ xs) ys w = elim (Bool-cases (leb (seq_of d) n)) [
    | inl old ↦
        let e : max n (seq_of d) ≡ n = omega (arith, leb→le (seq_of d) n old) in
        rw (old, e) (replay-append n xs ys w)
    | inr new ↦
        let e : max n (seq_of d) ≡ seq_of d = ground arith in
        rw (new, e) (replay-append (seq_of d) xs ys (invoke d w).1)
  ]

  le-top : (n : ℕ) (xs : List (Delivery P)) → n ≤ top n xs
  unfolding top
  le-top n [] = omega arith
  le-top n (d ∷ xs) = omega (arith, le-top (max n (seq_of d)) xs)

  -- What lies below the bound is not applied again.
  pub replay_again :
      (n m : ℕ) (xs : List (Delivery P)) (w : W) → top n xs ≤ m → replay invoke m xs w ≡ w
  unfolding replay top
  replay_again n m [] w h = refl
  replay_again n m (d ∷ xs) w h =
      let below : seq_of d ≤ m = omega (arith, le-top (max n (seq_of d)) xs) in
      rw (le→leb (seq_of d) m below) (replay_again (max n (seq_of d)) m xs w h)

  pub top_again : (n m : ℕ) (xs : List (Delivery P)) → top n xs ≤ m → top m xs ≡ m
  unfolding top
  top_again n m [] h = refl
  top_again n m (d ∷ xs) h =
      let e : max m (seq_of d) ≡ m = omega (arith, le-top (max n (seq_of d)) xs) in
      rw e (top_again (max n (seq_of d)) m xs h)

-- Between two turns: the loop's variable and the map agree, and the file is in step.
pub record IsSettled {W : Type 0} (c : Cbor) (stream : String) (n : ℕ) (s : Listening W)
    : Type 0 where
  pub saved : s.saved_seq ≡ n
  pub agrees : get s.rep_state stream ≡ n
  pub durable : IsDurable c s.rep_state

module _ {P W : Type 0} (c : Cbor) (invoke : Delivery P → W → Outcome × W) (stream : String) where
  -- The state after a healthy delivery above the saved sequence.
  abbrev applied : (d : Delivery P) → ℕ → Listening W → Listening W
  applied d seq s = record {
    saved_seq = seq;
    rep_state = (save d.save_io c s.rep_state stream seq).1;
    world = (invoke d s.world).1;
    replies = s.replies ++ ack seq ∷ [];
  }

  turn-applied :
      (d : Delivery P) (seq : ℕ) (s : Listening W)
      → d.metadata ≡ ok (stream, seq)
      → s.saved_seq < seq
      → (invoke d s.world).0 ≡ ok tt
      → (save d.save_io c s.rep_state stream seq).0 ≡ ok seq
      → d.ack_result ≡ ok tt
      → turn c invoke (message d) s ≡ go (applied d seq s)
  unfolding turn on_message
  turn-applied d seq s e lt i sv a = ground arith

  applied-IsSettled :
      (d : Delivery P) (seq n : ℕ) (s : Listening W)
      → (save d.save_io c s.rep_state stream seq).0 ≡ ok seq
      → IsSettled c stream n s
      → n < seq
      → IsSettled c stream seq (applied d seq s)
  applied-IsSettled d seq n s sv h lt = record {
    saved = refl;
    agrees =
        (get-save d.save_io c s.rep_state stream seq seq sv).1 stream ∙ rw (eq_refl stream) refl;
    durable = save-IsDurable d.save_io c s.rep_state stream seq seq sv h.durable;
  }

  -- The loop over healthy deliveries meets the specification, and ends settled.
  pub loop-replay :
      (ds : List (Delivery P)) (n : ℕ) (s : Listening W)
      → All (IsHealthy invoke stream) ds
      → IsSettled c stream n s
      → (t : Listening W) × (loop c invoke (map message ds) s ≡ (ok tt, t))
        × (t.world ≡ replay invoke n ds s.world)
        × IsSettled c stream (top n ds) t
  unfolding loop replay top
  loop-replay [] n s h i = (s, refl, refl, i)
  loop-replay (d ∷ ds) n s (hd, h) i = elim (Bool-cases (leb hd.seq n)) [
    | inl old ↦
        let (t, l, w, j) = loop-replay ds n s h i in
        let k : seq_of d ≡ hd.seq = rw hd.metadata refl in
        let m : max n (seq_of d) ≡ n = rw k (omega (arith, leb→le hd.seq n old)) in
        (
          t,
          loop_go c invoke (message d) (map message ds) s s (
                turn_covered c invoke d stream hd.seq s hd.metadata
                  (rw i.saved (leb→le hd.seq n old)))
              ∙ l,
          rw (k, old) w,
          rw m j,
        )
    | inr new ↦
        let lt : n < hd.seq = ground arith in
        let sv =
          save_fresh d.save_io c s.rep_state stream hd.seq i.durable.bytes i.durable.opened
            (rw i.agrees lt) hd.seeks hd.encodes in
        let (t, l, w, j) =
          loop-replay ds hd.seq (applied d hd.seq s) h (applied-IsSettled d hd.seq n s sv i lt) in
        let k : seq_of d ≡ hd.seq = rw hd.metadata refl in
        let m : max n (seq_of d) ≡ hd.seq = rw k (omega arith) in
        (
          t,
          loop_go c invoke (message d) (map message ds) s (applied d hd.seq s) (
                turn-applied d hd.seq s hd.metadata (rw i.saved lt) (hd.applies s.world) sv hd.acks)
              ∙ l,
          rw (k, new) w,
          rw m j,
        )
  ]

  listen-replay :
      (ds : List (Delivery P)) (rep : ReplicationState) (w : W)
      → All (IsHealthy invoke stream) ds
      → IsDurable c rep
      → (t : Listening W) × (listen c invoke (ok tt) stream (map message ds) rep w ≡ (ok tt, t))
        × (t.world ≡ replay invoke (get rep stream) ds w)
        × IsSettled c stream (top (get rep stream) ds) t
  unfolding listen
  listen-replay ds rep w h d =
      loop-replay ds (get rep stream) _ h (record { saved = refl; agrees = refl; durable = d })

  -- From a durable sequence map, a listener applies `xs`, for which nothing fails, and ends; the
  -- node restarts from the file, and the server delivers all of `xs` again, and then `ys`, for
  -- which nothing fails either. The restart succeeds, and the database is the one that a listener
  -- which never stopped has after `xs` and `ys`.
  pub restart_equivalence :
      (xs ys : List (Delivery P)) (rep : ReplicationState) (w : W)
      → All (IsHealthy invoke stream) xs
      → All (IsHealthy invoke stream) ys
      → IsDurable c rep
      → let stopped = (listen c invoke (ok tt) stream (map message xs) rep w).1 in
        (rep' : ReplicationState) × (init (reopen stopped.rep_state) c ≡ ok rep')
        × ((listen c invoke (ok tt) stream (map message (xs ++ ys)) rep' stopped.world).1.world
            ≡ (listen c invoke (ok tt) stream (map message (xs ++ ys)) rep w).1.world)
  restart_equivalence xs ys rep w hx hy d =
      let n = get rep stream in
      let both = All-append (IsHealthy invoke stream) xs ys hx hy in
      let (t, l, tw, i) = listen-replay xs rep w hx d in
      let stopped = (listen c invoke (ok tt) stream (map message xs) rep w).1 in
      let same : stopped ≡ t = ap (λ x. x.1) l in
      let dt = subst (λ x. IsDurable c x.rep_state) (sym same) i.durable in
      let (u, lu, uw, _) =
        listen-replay (xs ++ ys) dt.restored stopped.world both
          (restored-IsDurable c stopped.rep_state dt) in
      let (v, lv, vw, _) = listen-replay (xs ++ ys) rep w both d in
      let m : get dt.restored stream ≡ top n xs =
        dt.same stream ∙ ap (λ x. get x.rep_state stream) same ∙ i.agrees in
      (
        dt.restored,
        init-reopen c stopped.rep_state dt,
        ap (λ x. x.1.world) lu
            ∙ uw
            ∙ rw (m, same, tw)
                (replay-append invoke (top n xs) xs ys (replay invoke n xs w)
                  ∙ rw
                      (
                        replay_again invoke n (top n xs) xs (replay invoke n xs w)
                            (le_refl (top n xs)),
                        top_again invoke n (top n xs) xs (le_refl (top n xs)),
                      )
                      (sym (replay-append invoke n xs ys w)))
            ∙ sym vw
            ∙ sym (ap (λ x. x.1.world) lv),
      )
