-- ===== src/Db/ChangeLog/Feed/Published.antt =====
-- A publication of db/change_log.go in which no statement fails, and the feed.
use harmonylite.Prelude.{
  length, take, All, ℕ, zero, suc, ◌<◌, String, ◌≡◌, refl, sym, ap, subst, ◌≢◌, inl, inr, true,
  some, List, [], ◌∷◌, ◌++◌, arith, ltb, if◌then◌else◌, Bool-cases, Outcome, Result-cases, ok, err,
}
use harmonylite.Db.Event.{ChangeLogEvent, ColumnInfo}
use harmonylite.Db.ChangeLog.{StreamDb, LogRow, GlobalChange, log_of}
use harmonylite.Db.ChangeLog.Publication.{
  find_pending, with_id, event_from, marked, without, publish_one, publish_loop, publish_change_log,
  go, stop, broken_off, returned, is_transient, on_found, on_consumed, consume_change_logs, offer,
  mark_change_published, after,
}
use harmonylite.Db.ChangeLog.Invariant.{IsConsistent-same, IsBelow, Distinct, Apart}
use harmonylite.Db.ChangeLog.Invariant.Marked.{marked-IsConsistent, find_pending-set_published}
use harmonylite.Db.ChangeLog.Delivery.{with_id-found}
use harmonylite.Db.ChangeLog.Feed.{
  Feed, Stands, LineUp, Implements, feed_step, publication, pass, working,
}
use harmonylite.Db.ChangeLog.Feed.Stored.{
  log-cases, with_id-set_published, ids-set_published, Stands-to, LineUp-map,
}

-- The database after the event was taken.
abbrev took : ChangeLogEvent → StreamDb → StreamDb
took e s = record s { sent = s.sent ++ e ∷ [] }

module _ (n : ℕ) (f : ChangeLogEvent → Outcome) where
  -- One turn of the loop.
  publish_one-Stands :
      (c : GlobalChange) (e : ChangeLogEvent) (s : StreamDb)
      → Stands s c e
      → publish_one (working n f) c s ≡ elim (f e) [
        | ok _ ↦ go (marked c (took e s))
        | err x ↦ if is_transient x then stop broken_off s else go (marked c s)
      ]
  unfolding publish_one on_found on_consumed consume_change_logs offer mark_change_published
  publish_one-Stands c e s (r, found, alone, k) =
      let id = (with_id-found c.change_table_id (log_of s c.table_name).rows r found).0 in
      rw (found, id, alone, k)
        (ground (arith, Result-cases (f (event_from s c.table_name r.type r))))

without-fresh :
    (c : GlobalChange) (cs : List GlobalChange) → All (Distinct c) cs → without c.id cs ≡ cs
unfolding without
without-fresh c [] d = refl
without-fresh c (g ∷ cs) d = ground (arith, d.0.0, without-fresh c cs d.1)

module _ (c : GlobalChange) (s : StreamDb) where
  Stands-marked :
      (g : GlobalChange) (e : ChangeLogEvent)
      → Distinct c g
      → Stands s g e
      → Stands (marked c s) g e
  unfolding marked
  Stands-marked g e d = Stands-to s (marked c s) g e refl refl λ r f w.
      log-cases c.table_name g.table_name _ s.logs
        (λ l.
          (find_pending g.change_table_id l.rows ≡ some r)
          × (with_id g.change_table_id l.rows ≡ r ∷ []))
        (λ same.
          let ne : g.change_table_id ≢ c.change_table_id = λ k. d.1 (same, sym k) in
          (
            rw
                (
                  find_pending-set_published g.change_table_id c.change_table_id
                      (log_of s c.table_name).rows ne,
                  same,
                )
                f,
            rw
                (
                  with_id-set_published g.change_table_id c.change_table_id
                      (log_of s c.table_name).rows ne,
                  same,
                )
                w,
          ))
        (λ _. (f, w))

module _ (columns : String → List ColumnInfo) (hash : String) where
  marked-Implements :
      (c : GlobalChange) (cs : List GlobalChange) (e : ChangeLogEvent) (es : List ChangeLogEvent)
      (s : StreamDb) (q : Feed)
      → s.global ≡ c ∷ cs
      → q.waiting ≡ e ∷ es
      → Implements columns hash s q
      → Implements columns hash (marked c s) (record q { waiting = es })
        × ((marked c s).global ≡ cs)
  unfolding marked event_from
  marked-Implements c cs e es s q eg ew h = (
    record {
      consistent = marked-IsConsistent c s (rw eg (inl refl)) h.consistent;
      fresh = λ t.
          log-cases c.table_name t _ s.logs (λ l. All (λ (r : LogRow). r.id < l.next) l.rows)
            (λ _. ids-set_published _ _ (log_of s c.table_name).rows (h.fresh c.table_name))
            (λ _. h.fresh t);
      waiting =
          rw rest
            (LineUp-map s (marked c s) (Distinct c) (Stands-marked c s) cs es apart.0 lined.1);
      taken = h.taken;
      next = λ t.
          log-cases c.table_name t _ s.logs (λ l. l.next ≡ q.next t)
            (λ e. rw (← e) (h.next c.table_name)) (λ _. h.next t);
      columns_same = h.columns_same;
      hash_same = h.hash_same;
    },
    rest,
  )
    where
      apart : Apart (c ∷ cs)
      apart = subst Apart eg h.consistent.apart

      lined : LineUp s (c ∷ cs) (e ∷ es)
      lined = subst (λ g. LineUp s g (e ∷ es)) eg (subst (LineUp s s.global) ew h.waiting)

      rest : without c.id s.global ≡ cs
      rest = rw eg (unfold without in ground (arith, without-fresh c cs apart.0))

  took-Implements :
      (e : ChangeLogEvent) (s : StreamDb) (q : Feed)
      → Implements columns hash s q
      → Implements columns hash (took e s) (record q { taken = q.taken ++ e ∷ [] })
  took-Implements e s q h = record {
    consistent = IsConsistent-same s (took e s) refl refl refl h.consistent;
    fresh = h.fresh;
    waiting =
        LineUp-map s (took e s) (IsBelow s.logs)
          (λ c x _. Stands-to s (took e s) c x refl refl (λ r f w. (f, w))) s.global q.waiting
          h.consistent.below h.waiting;
    taken = ap (λ l. l ++ e ∷ []) h.taken;
    next = h.next;
    columns_same = h.columns_same;
    hash_same = h.hash_same;
  }

  length-cons : (c : GlobalChange) (cs : List GlobalChange) → ltb 0 (length (c ∷ cs)) ≡ true
  length-cons c cs = ground arith

  -- The feed whose waiting and taken events are these.
  abbrev holding : Feed → List ChangeLogEvent × List ChangeLogEvent → Feed
  holding q r = record q { waiting = r.0; taken = r.1 }

  module _ (m : ℕ) (f : ChangeLogEvent → Outcome) where
    loop-Implements :
        (n : ℕ) (cs : List GlobalChange) (es done : List ChangeLogEvent) (s : StreamDb) (q : Feed)
        → s.global ≡ cs
        → Implements columns hash s (holding q (es, done))
        → Implements columns hash
            (publish_loop (working m f) (take n cs) s).1
            (holding q (pass f n es done))
    unfolding publish_loop pass
    loop-Implements zero cs es done s q eg h = h
    loop-Implements (suc n) [] [] done s q eg h = h
    loop-Implements (suc n) [] (e ∷ es) done s q eg h =
        absurd (subst (λ g. LineUp s g (e ∷ es)) eg h.waiting)
    loop-Implements (suc n) (c ∷ cs) [] done s q eg h =
        absurd (subst (λ g. LineUp s g []) eg h.waiting)
    loop-Implements (suc n) (c ∷ cs) (e ∷ es) done s q eg h =
        let lined : LineUp s (c ∷ cs) (e ∷ es) = subst (λ g. LineUp s g (e ∷ es)) eg h.waiting in
        let (dropped, rest) = marked-Implements c cs e es s (holding q (e ∷ es, done)) eg refl h in
        let (accepted, rest') =
          marked-Implements c cs e es (took e s) (holding q (e ∷ es, done ++ e ∷ [])) eg refl
            (took-Implements e s (holding q (e ∷ es, done)) h) in
        rw (publish_one-Stands m f c e s lined.0) (
          by_result (f e)
            (loop-Implements n cs es (done ++ e ∷ []) (marked c (took e s)) q rest' accepted)
            (loop-Implements n cs es done (marked c s) q rest dropped))
      where
        by_result :
            (x : Outcome)
            → Implements columns hash
                (publish_loop (working m f) (take n cs) (marked c (took e s))).1
                (holding q (pass f n es (done ++ e ∷ [])))
            → Implements columns hash
                (publish_loop (working m f) (take n cs) (marked c s)).1
                (holding q (pass f n es done))
            → Implements columns hash
                (after
                  (elim x [
                    | ok _ ↦ go (marked c (took e s))
                    | err y ↦ if is_transient y then stop broken_off s else go (marked c s)
                  ])
                  (publish_loop (working m f) (take n cs))).1
                (holding q (elim x [
                  | ok _ ↦ pass f n es (done ++ e ∷ [])
                  | err y ↦ if is_transient y then (e ∷ es, done) else pass f n es done
                ]))
        by_result (ok u) a b = a
        by_result (err y) a b = elim (Bool-cases (is_transient y)) [
          | inl k ↦ rw k h
          | inr k ↦ rw k b
        ]

    pub publication-Implements :
        (s : StreamDb) (q : Feed)
        → Implements columns hash s q
        → Implements columns hash
            (publish_change_log (working m f) s).1
            (feed_step columns hash (publication m f) q)
    unfolding publish_change_log feed_step
    publication-Implements s q h = by_global s.global q.waiting refl h
      where
        pass-nil : (n : ℕ) (done : List ChangeLogEvent) → pass f n [] done ≡ ([], done)
        pass-nil zero done = unfold pass in refl
        pass-nil (suc n) done = unfold pass in refl

        by_global :
            (cs : List GlobalChange) (es : List ChangeLogEvent)
            → s.global ≡ cs
            → Implements columns hash s (holding q (es, q.taken))
            → Implements columns hash
                (if ltb 0 (length cs)
                  then publish_loop (working m f) (take m cs) s
                  else (returned, s)).1
                (holding q (pass f m es q.taken))
        by_global [] [] eg h = rw pass-nil h
        by_global [] (e ∷ es) eg h = absurd (subst (λ g. LineUp s g (e ∷ es)) eg h.waiting)
        by_global (c ∷ cs) es eg h =
            rw (length-cons c cs) (loop-Implements m (c ∷ cs) es q.taken s q eg h)
