-- ===== src/Logstream/ListenWithDb.antt =====
-- logstream/listen_with_db.go: the listener that checks schemas and applies events to the database.
-- The loop is the one of Listener.antt, over the callback below.
pub mod Unchecked
use harmonylite.Prelude.{ℕ, String, List, Result, Outcome, exited, ok, err, ◌>>=◌, ◌>>◌}
use harmonylite.Logstream.ReplicationState.{Cbor, ReplicationState}
use harmonylite.Logstream.Listener.{Delivery, listen, loop, turn, on_message, Poll, Listening}
use harmonylite.Db.Event.{ChangeLogEvent}
use harmonylite.Logstream.Validation.{
  Moment, Verdict, Guard, validate_and_replicate_with_schema, done, retry, fatal,
}
use harmonylite.Logstream.ReplicationEvent.{EventCodec, unmarshal, blank, ReplicationEvent}

-- `msg.Data`, and what validation meets when it handles the message.
pub record Message : Type 0 where
  pub body : List ℕ
  pub moment : Moment

module _ {D : Type 0} (codec : EventCodec) (decompress : List ℕ → Result (List ℕ))
    (replicate_event : ChangeLogEvent → D → Outcome × D)
    (callback : ChangeLogEvent → D → Outcome × D) where
  -- After validation: a retry is reported as success, and otherwise the user's callback runs.
  on_verdict : ChangeLogEvent → Verdict → Guard → D → Outcome × (Guard × D)
  on_verdict e retry g d = (ok tt, (g, d))
  on_verdict e fatal g d = (err exited, (g, d))
  on_verdict e (done (err x)) g d = (err x, (g, d))
  on_verdict e (done (ok _)) g d = let (r, d') = callback e d in (r, (g, d'))

  pub on_event : Moment → ChangeLogEvent → Guard × D → Outcome × (Guard × D)
  unfolding on_verdict
  on_event m e w =
      let (v, w') = validate_and_replicate_with_schema replicate_event m e w.0 w.1 in
      on_verdict e v w'.0 w'.1

  pub unpack : Message → Result ReplicationEvent
  unpack msg = do bytes ← decompress msg.body; unmarshal codec blank bytes

  unfoldable pub invoke_listener_with_schema_validation :
      Delivery Message → Guard × D → Outcome × (Guard × D)
  unfolding on_event unpack
  invoke_listener_with_schema_validation msg w = elim (unpack msg.payload) [
    | err e ↦ (err e, w)
    | ok ev ↦ on_event msg.payload.moment ev.payload w
  ]

  pub listen_with_db :
      Cbor
      → Outcome
      → String
      → List (Poll Message)
      → ReplicationState
      → Guard × D
      → Outcome × Listening (Guard × D)
  listen_with_db c = listen c invoke_listener_with_schema_validation
