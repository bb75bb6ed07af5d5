-- ===== src/Db/Replicate/Replay/Shards.antt =====
-- Applying the events of several streams, interleaved in two ways (db/change_log.go, for the listeners
-- of logstream/replicator.go).
use harmonylite.Prelude.{
  keep, Dict, ℕ, String, ◌≡◌, refl, sym, ap, ◌∙◌, ◌⊎◌, inl, inr, Bool, true, false, List, [], ◌∷◌,
  arith, ◌==◌, if◌then◌else◌, ==_iff, Bool-cases,
}
use harmonylite.Db.Event.{Row, ColumnInfo, ChangeLogEvent}
use harmonylite.Db.Replicate.{consume_replication_event}
use harmonylite.Db.Replicate.Applied.{healthy_io}
use harmonylite.Db.Replicate.Replay.{Rows, exec_all, replay, touches, told, row-event}

module _ {watch : Dict String (List ColumnInfo)} {S : Type 0} (rows : Rows watch S) where
  abbrev apply_event : ChangeLogEvent → S → S
  apply_event e s = exec_all rows (consume_replication_event healthy_io watch e).1 s

  untouched :
      (u : String) (k : Row) (e : ChangeLogEvent) (s : S)
      → touches rows u k e ≡ false
      → rows.find u k (apply_event e s) ≡ rows.find u k s
  untouched u k e s t = row-event rows u k e s ∙ rw t refl

  -- An event leaves equal rows equal.
  equal_after :
      (u : String) (k : Row) (e : ChangeLogEvent) (s s' : S)
      → rows.find u k s ≡ rows.find u k s'
      → rows.find u k (apply_event e s) ≡ rows.find u k (apply_event e s')
  equal_after u k e s s' h =
      row-event rows u k e s
      ∙ ap (λ v. if touches rows u k e then told rows e v else v) h
      ∙ sym (row-event rows u k e s')

  -- A row depends on the events about it alone.
  replay-keep :
      (u : String) (k : Row) (es : List ChangeLogEvent) (s s' : S)
      → rows.find u k s ≡ rows.find u k s'
      → rows.find u k (replay rows es s)
        ≡ rows.find u k (replay rows (keep (touches rows u k) es) s')
  unfolding replay keep
  replay-keep u k [] s s' h = h
  replay-keep u k (e ∷ es) s s' h = elim (Bool-cases (touches rows u k e)) [
    | inl t ↦
        rw t (replay-keep u k es (apply_event e s) (apply_event e s') (equal_after u k e s s' h))
    | inr t ↦ rw t (replay-keep u k es (apply_event e s) s' (untouched u k e s t ∙ h))
  ]

  keep_of_keep :
      (p q : ChangeLogEvent → Bool) (es : List ChangeLogEvent)
      → ((e : ChangeLogEvent) → p e ≡ true → q e ≡ true)
      → keep p (keep q es) ≡ keep p es
  unfolding keep
  keep_of_keep p q [] h = refl
  keep_of_keep p q (e ∷ es) h = ground (arith, h e, keep_of_keep p q es h)

  some_touched :
      (p : ChangeLogEvent → Bool) (es : List ChangeLogEvent)
      → ((e : ChangeLogEvent) × (p e ≡ true)) ⊎ (keep p es ≡ [])
  unfolding keep
  some_touched p [] = inr refl
  some_touched p (e ∷ es) = elim (Bool-cases (p e)) [
    | inl t ↦ inl (e, t)
    | inr t ↦ rw t (some_touched p es)
  ]

  -- Two nodes with the same rows get the events of the same streams, each stream in its order, but
  -- interleaved as it may be: if the events about one row are all of one stream, the nodes have the
  -- same rows afterwards. The tables have no unique column outside their key.
  pub streams_converge :
      (stream : ChangeLogEvent → ℕ) (a b : List ChangeLogEvent) (s s' : S)
      → ((u : String) (k : Row) (e f : ChangeLogEvent)
          → touches rows u k e ≡ true
          → touches rows u k f ≡ true
          → stream e ≡ stream f)
      → ((i : ℕ) → keep (λ e. stream e == i) a ≡ keep (λ e. stream e == i) b)
      → ((u : String) (k : Row) → rows.find u k s ≡ rows.find u k s')
      → (u : String) (k : Row) → rows.find u k (replay rows a s) ≡ rows.find u k (replay rows b s')
  streams_converge stream a b s s' one same start u k =
      replay-keep u k a s s (refl)
      ∙ ap (λ es. rows.find u k (replay rows es s)) kept
      ∙ sym (replay-keep u k b s' s (sym (start u k)))
    where
      at_stream :
          (e : ChangeLogEvent)
          → touches rows u k e ≡ true
          → keep (touches rows u k) a ≡ keep (touches rows u k) b
      at_stream e t =
          sym (
            keep_of_keep (touches rows u k) (λ f. stream f == stream e) a
              (λ f r. (==_iff _ _).1 (one u k f e r t)))
          ∙ ap (keep (touches rows u k)) (same (stream e))
          ∙ keep_of_keep (touches rows u k) (λ f. stream f == stream e) b
              (λ f r. (==_iff _ _).1 (one u k f e r t))

      kept : keep (touches rows u k) a ≡ keep (touches rows u k) b
      kept = elim (some_touched (touches rows u k) a) [
        | inl (e, t) ↦ at_stream e t
        | inr none_in_a ↦ elim (some_touched (touches rows u k) b) [
          | inl (e, t) ↦ at_stream e t
          | inr none_in_b ↦ none_in_a ∙ sym none_in_b
        ]
      ]
