-- ===== src/Logstream/Listener.antt =====
-- logstream/replicator.go (`Listen`, `invokeListener`) and logstream/listen_with_db.go: the loop
-- that reads a shard's stream and applies its messages.
-- The NATS subscription is outside the repository. A run is a list of `Poll`s, what `NextMsg`
-- returns at each turn, and each delivery carries what its later calls return. The list's end is
-- the subscription turning invalid. While the loop waits, another thread may save a sequence:
-- `Publish` does so for the messages of this node.
pub mod Order
pub mod Restart
pub mod Skipped
use harmonylite.Prelude.{
  ℕ, zero, suc, ◌+◌, ◌-◌, String, ◌≡◌, ap, List, [], ◌∷◌, ◌++◌, leb, if◌then◌else◌, Err, Result,
  Outcome, canceled, ok, err,
}
use harmonylite.Logstream.ReplicationState.{Cbor, ReplicationState, SaveIo, save, get}

pub data Reply : Type 0 where
  ack nak : ℕ → Reply

-- `metadata` is the stream and the sequence in it.
pub record Delivery (P : Type 0) : Type 0 where
  pub metadata : Result (String × ℕ)
  pub payload : P
  pub in_progress : ℕ → Outcome
  pub ack_result : Outcome
  pub save_io : SaveIo

pub data Poll (P : Type 0) : Type 0 where
  timeout : Poll P
  failed : Err → Poll P
  message : Delivery P → Poll P
  published : SaveIo → String → ℕ → Poll P

-- The loop's variable `savedSeq`, the shared sequence map, the database (`world`), and what the
-- loop told the server.
pub record Listening (W : Type 0) : Type 0 where
  pub saved_seq : ℕ
  pub rep_state : ReplicationState
  pub world : W
  pub replies : List Reply

-- A turn goes on, or the method returns.
pub data Turn (W : Type 0) : Type 0 where
  go : Listening W → Turn W
  stop : Outcome → Listening W → Turn W

abbrev pub after :
    {W : Type 0} → Turn W → (Listening W → Outcome × Listening W) → Outcome × Listening W
after (go t) rest = rest t
after (stop r t) rest = (r, t)

module _ {P W : Type 0} (c : Cbor) (invoke : Delivery P → W → Outcome × W) where
  -- The rest of a turn after the callback: save the sequence, then acknowledge.
  unfoldable pub finish : Delivery P → String → ℕ → Listening W → Turn W
  finish d stream seq s =
      let (r, rep) = save d.save_io c s.rep_state stream seq in
      let s' = record s { rep_state = rep } in
      elim r [
        | err e ↦ stop (err e) s'
        | ok v ↦
            let t = record s' { saved_seq = v; replies = s.replies ++ ack seq ∷ [] } in
            elim d.ack_result [ err e ↦ stop (err e) t | ok _ ↦ go t ]
      ]

  -- A canceled callback ends the loop without an error, any other failure with it.
  on_result : Outcome → Delivery P → String → ℕ → Listening W → Turn W
  on_result (ok _) d stream seq s = finish d stream seq s
  on_result (err canceled) d stream seq s =
      stop (ok tt) (record s { replies = s.replies ++ nak seq ∷ [] })
  on_result (err e) d stream seq s = stop (err e) (record s { replies = s.replies ++ nak seq ∷ [] })

  unfoldable pub on_message : Delivery P → String → ℕ → Listening W → Turn W
  unfolding on_result finish
  on_message d stream seq s =
      if leb seq s.saved_seq
      then go s
      else (let (r, w) = invoke d s.world in on_result r d stream seq (record s { world = w }))

  unfoldable pub turn : Poll P → Listening W → Turn W
  turn timeout s = go s
  turn (failed e) s = stop (err e) s
  turn (published io stream seq) s =
      go (record s { rep_state = (save io c s.rep_state stream seq).1 })
  turn (message d) s = elim d.metadata [
    | err e ↦ stop (err e) s
    | ok (stream, seq) ↦ on_message d stream seq s
  ]

  -- `for sub.IsValid() { ... }`
  unfoldable pub loop : List (Poll P) → Listening W → Outcome × Listening W
  loop [] s = (ok tt, s)
  loop (p ∷ ps) s = after (turn p s) (loop ps)

  -- A failed subscription is returned. The sequence is read from the map once, after it.
  unfoldable pub listen :
      Outcome → String → List (Poll P) → ReplicationState → W → Outcome × Listening W
  listen subscribe stream_name ps rep w =
      let s : Listening W = record {
        saved_seq = get rep stream_name;
        rep_state = rep;
        world = w;
        replies = [];
      } in
      elim subscribe [ err e ↦ (err e, s) | ok _ ↦ loop ps s ]

module _ {P W : Type 0} (c : Cbor) (invoke : Delivery P → W → Outcome × W) where
  -- One turn of the loop that goes on.
  pub loop_go :
      (p : Poll P) (ps : List (Poll P)) (s t : Listening W)
      → turn c invoke p s ≡ go t
      → loop c invoke (p ∷ ps) s ≡ loop c invoke ps t
  unfolding loop
  loop_go p ps s t e = ap (λ x. after x (loop c invoke ps)) e

abbrev pub max_replicate_retries : ℕ
max_replicate_retries = 7

module _ {P W : Type 0} (callback : P → W → Outcome × W) where
  -- The attempts left after a failure; before each the server is told of the progress.
  retry : ℕ → ℕ → Err → Delivery P → P → W → Outcome × W
  retry zero attempt last d payload w = (err last, w)
  retry (suc left) attempt last d payload w = elim (d.in_progress attempt) [
    | err e ↦ (err e, w)
    | ok _ ↦
        let (r, w') = callback payload w in
        elim r [
          | ok _ ↦ (ok tt, w')
          | err e ↦ elim e [
            | canceled ↦ (err canceled, w')
            | other ↦ retry left (attempt + 1) other d payload w'
          ]
        ]
  ]

  first_result : Outcome → Delivery P → P → W → Outcome × W
  first_result (ok _) d payload w = (ok tt, w)
  first_result (err canceled) d payload w = (err canceled, w)
  first_result (err e) d payload w = retry (max_replicate_retries - 1) 1 e d payload w

  -- `decompress` is the identity where compression is off.
  pub invoke_listener : (P → Result P) → Delivery P → W → Outcome × W
  unfolding first_result retry
  invoke_listener decompress d w = elim (decompress d.payload) [
    | err e ↦ (err e, w)
    | ok payload ↦ let (r, w') = callback payload w in first_result r d payload w'
  ]
