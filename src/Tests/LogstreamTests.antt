-- ===== src/Tests/LogstreamTests.antt =====
-- The theorems on the listener, its sequence map and the events at concrete inputs.
use harmonylite.Prelude.{
  Dict, lookup, ℕ, String, ◌≡◌, refl, ap, some, List, [], ◌∷◌, ◌++◌, map, arith, Outcome, ok,
  string_eq, nat_eq,
}
use harmonylite.Tests.Codecs.{
  toy_cbor, toy_codec, toy_event, decode-entries, encode_row, entries, encode_int, chars, int_of,
}
use harmonylite.Logstream.ReplicationState.{ReplicationState, SaveIo, save, get, init, decode_into}
use harmonylite.Logstream.ReplicationState.Durable.{IsDurable, reopen}
use harmonylite.Logstream.Listener.{Delivery, Listening, message, published, timeout, loop, listen}
use harmonylite.Logstream.Listener.Order.{listen-Ascends, Ascends, noting}
use harmonylite.Logstream.Listener.Skipped.{publish_skips}
use harmonylite.Logstream.Listener.Restart.{restart_equivalence, IsHealthy}
use harmonylite.Logstream.ReplicationEvent.{marshal}
use harmonylite.Db.Event.{wrap, prepare}

abbrev save_io : SaveIo
save_io = record { seek = ok tt; encode = ok tt; torn = [] }

abbrev sequences : Dict String ℕ
sequences = ("changes-1", 4) ∷ []

abbrev state : ReplicationState
state = record { seq = sequences; fl = some (toy_cbor.encode sequences) }

abbrev delivery : ℕ → ℕ → Delivery ℕ
delivery seq payload = record {
  metadata = ok ("changes-1", seq);
  payload = payload;
  in_progress = λ attempt. ok tt;
  ack_result = ok tt;
  save_io = save_io;
}

-- The callback adds the payload to a list.
abbrev noted : Delivery ℕ → List ℕ → Outcome × List ℕ
noted d w = (ok tt, d.payload ∷ w)

state-IsDurable : IsDurable toy_cbor state
state-IsDurable = record {
  bytes = toy_cbor.encode sequences;
  opened = refl;
  restored = record { seq = sequences; fl = some (toy_cbor.encode sequences) };
  decodes =
      unfold decode_into entries chars in
      ap
        (λ (x : String × (ℕ × Dict String ℕ)).
          ok (record { seq = x.1.1; fl = some (toy_cbor.encode sequences) }))
        (decode-entries sequences []);
  same = λ k. refl;
}

listen-Ascends_example :
    Ascends
      (get state "changes-1")
      (listen toy_cbor
        (noting toy_cbor noted)
        (ok tt)
        "changes-1"
        (message (delivery 6 1) ∷ timeout ∷ message (delivery 5 2) ∷ message (delivery 8 3) ∷ [])
        state
        ([], [])).1.world.1
listen-Ascends_example =
    listen-Ascends toy_cbor noted (ok tt) "changes-1"
      (message (delivery 6 1) ∷ timeout ∷ message (delivery 5 2) ∷ message (delivery 8 3) ∷ [])
      state []

abbrev listening : Listening (List ℕ)
listening = record { saved_seq = 4; rep_state = state; world = []; replies = [] }

publish_skips_example :
    (loop toy_cbor noted
      (published save_io "changes-1" 8
        ∷ message (delivery 5 1)
        ∷ map message (delivery 6 2 ∷ delivery 7 3 ∷ []))
      listening).1.world
    ≡ 1 ∷ []
publish_skips_example =
    publish_skips toy_cbor noted save_io "changes-1" 8 5 (delivery 5 1)
      (delivery 6 2 ∷ delivery 7 3 ∷ []) listening (unfold save lookup in refl) refl (omega arith)
      (omega arith) refl refl
      (("changes-1", 6, refl, omega arith), (("changes-1", 7, refl, omega arith), tt))

healthy : (seq payload : ℕ) → IsHealthy noted "changes-1" (delivery seq payload)
healthy seq payload = record {
  seq = seq;
  metadata = refl;
  applies = λ w. refl;
  acks = refl;
  seeks = refl;
  encodes = refl;
}

abbrev first_run : List (Delivery ℕ)
first_run = delivery 5 1 ∷ delivery 6 2 ∷ []

abbrev second_run : List (Delivery ℕ)
second_run = delivery 7 3 ∷ []

restart_equivalence_example :
    (rep' : ReplicationState) × (init
        (reopen
          (listen toy_cbor noted (ok tt) "changes-1" (map message first_run) state []).1.rep_state)
        toy_cbor
      ≡ ok rep')
    × ((listen toy_cbor noted
          (ok tt)
          "changes-1"
          (map message (first_run ++ second_run))
          rep'
          (listen toy_cbor noted
            (ok tt)
            "changes-1"
            (map message first_run)
            state
            []).1.world).1.world
        ≡ (listen toy_cbor noted
            (ok tt)
            "changes-1"
            (map message (first_run ++ second_run))
            state
            []).1.world)
restart_equivalence_example =
    restart_equivalence toy_cbor noted "changes-1" first_run second_run state []
      (healthy 5 1, (healthy 6 2, tt)) (healthy 7 3, tt) state-IsDurable

marshalled : marshal toy_codec (toy_event 7 3 11) ≡ ok (7 ∷ 3 ∷ 11 ∷ [])
unfolding marshal encode_row encode_int int_of wrap prepare
marshalled = refl
