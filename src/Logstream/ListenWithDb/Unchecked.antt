-- ===== src/Logstream/ListenWithDb/Unchecked.antt =====
-- Whether the schema check of logstream/listen_with_db.go ever runs.
use harmonylite.Prelude.{
  tests, ℕ, ◌≡◌, inl, inr, List, arith, Result, Outcome, Result-cases, ok, err,
}
use harmonylite.Logstream.ListenWithDb.{
  invoke_listener_with_schema_validation, Message, Moment, Guard, unpack, on_event,
}
use harmonylite.Logstream.Validation.{
  validate_and_replicate_with_schema, Moment, Guard, reset_mismatch_state,
}
use harmonylite.Logstream.Listener.{Delivery}
use harmonylite.Db.Event.{unwrap, ChangeLogEvent}
use harmonylite.Logstream.ReplicationEvent.{EventCodec, unmarshal, blank, ReplicationEvent}

-- No event that `unmarshal` returns for a fresh target has a schema hash.
pub schema_hash-unmarshal :
    (codec : EventCodec) (bytes : List ℕ) (ev : ReplicationEvent)
    → unmarshal codec blank bytes ≡ ok ev
    → ev.payload.schema_hash ≡ ""
unfolding unmarshal unwrap
schema_hash-unmarshal codec bytes ev h = ground arith

module _ {D : Type 0} (codec : EventCodec) (decompress : List ℕ → Result (List ℕ))
    (replicate_event : ChangeLogEvent → D → Outcome × D)
    (callback : ChangeLogEvent → D → Outcome × D) where
  -- The rest of the listener with the check left out.
  pub on_event_unchecked : ChangeLogEvent → Guard × D → Outcome × (Guard × D)
  on_event_unchecked e w =
      let g = reset_mismatch_state w.0 in
      let (r, d) = replicate_event e w.1 in
      elim r [ err x ↦ (err x, (g, d)) | ok _ ↦ let (r', d') = callback e d in (r', (g, d')) ]

  -- The listener with the check left out.
  pub invoke_unchecked : Delivery Message → Guard × D → Outcome × (Guard × D)
  invoke_unchecked msg w = elim (unpack codec decompress replicate_event callback msg.payload) [
    | err e ↦ (err e, w)
    | ok ev ↦ on_event_unchecked ev.payload w
  ]

  on_event_unhashed :
      (m : Moment) (e : ChangeLogEvent) (w : Guard × D)
      → e.schema_hash ≡ ""
      → on_event codec decompress replicate_event callback m e w ≡ on_event_unchecked e w
  unfolding on_event on_event_unchecked validate_and_replicate_with_schema
  on_event_unhashed m e w h = grind tests

  unpack-schema_hash :
      (msg : Message) (ev : ReplicationEvent)
      → unpack codec decompress replicate_event callback msg ≡ ok ev
      → ev.payload.schema_hash ≡ ""
  unfolding unpack
  unpack-schema_hash msg ev h = elim (Result-cases (decompress msg.body)) [
    | inl (e, k) ↦ cc
    | inr (bytes, k) ↦ schema_hash-unmarshal codec bytes ev (ground arith)
  ]

  -- On every message, whatever the hash of the event that was sent, whatever the local schema and
  -- whatever mismatch is pending, the listener with the check does what the listener without it does.
  pub invoke_is_unchecked :
      (msg : Delivery Message) (w : Guard × D)
      → invoke_listener_with_schema_validation codec decompress replicate_event callback msg w
        ≡ invoke_unchecked msg w
  unfolding invoke_listener_with_schema_validation invoke_unchecked
  invoke_is_unchecked msg w =
      let unpacked = unpack codec decompress replicate_event callback msg.payload in
      elim (Result-cases unpacked) [
        | inl (e, h) ↦ ground arith
        | inr (ev, h) ↦ ground (
          arith,
          on_event_unhashed msg.payload.moment ev.payload w (unpack-schema_hash msg.payload ev h),
        )
      ]
