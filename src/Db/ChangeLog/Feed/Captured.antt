-- ===== src/Db/ChangeLog/Feed/Captured.antt =====
-- The triggers of db/table_change_log_script.tmpl and `CleanupChangeLogs` of db/change_log.go, and the
-- feed.
use harmonylite.Prelude.{
  All, All-append, All-map, ◌≐◌, ℕ, suc, ◌<◌, String, ◌≡◌, refl, ap, subst, inl, inr, Bool, true,
  false, some, List, [], ◌∷◌, arith, Bool-cases, Result, Outcome, ok, err, string_eq, nat_eq,
}
use harmonylite.Db.ChangeLog.Cleanup.{cleaned, find_pending-delete_old, cleaned-IsConsistent}
use harmonylite.Db.ChangeLog.Invariant.Capture.{capture-IsConsistent, new_change}
use harmonylite.Db.Event.{Row, ChangeLogEvent, ColumnInfo}
use harmonylite.Db.ChangeLog.{
  StreamDb, LogRow, GlobalChange, log_of, record_change, pending, ColumnInfo, capture,
  cleanup_change_logs, delete_old,
}
use harmonylite.Db.ChangeLog.Publication.{find_pending, with_id, event_from, select_columns}
use harmonylite.Db.ChangeLog.Invariant.{IsBelow, log-insert}
use harmonylite.Db.ChangeLog.Feed.{Stands, IsFresh, Feed, enqueue, Implements, feed_step, change}
use harmonylite.Db.ChangeLog.Feed.Stored.{
  log-cases, with_id-append, with_id-below, find_pending-append_some, find_pending-last, Stands-to,
  LineUp-append, LineUp-map, with_id-delete_old, All-keep,
}

module _ (type table : String) (row : Row) (now : ℕ) (s : StreamDb) where
  abbrev recorded : StreamDb
  recorded = record_change type table row now s

  abbrev new_row : LogRow
  new_row = record {
    id = (log_of s table).next;
    type = type;
    row = row;
    created_at = now;
    state = pending;
  }

  Stands-recorded :
      (c : GlobalChange) (e : ChangeLogEvent)
      → IsBelow s.logs c
      → Stands s c e
      → Stands recorded c e
  unfolding record_change
  Stands-recorded c e b = Stands-to s recorded c e refl refl λ r f w.
      log-cases table c.table_name _ s.logs
        (λ l.
          (find_pending c.change_table_id l.rows ≡ some r)
          × (with_id c.change_table_id l.rows ≡ r ∷ []))
        (λ same.
          let below : c.change_table_id < (log_of s table).next = rw same b in
          (
            find_pending-append_some c.change_table_id (log_of s table).rows (new_row ∷ []) r
                (rw same f),
            rw (with_id-append, same, w) (unfold with_id in ground (arith, below)),
          ))
        (λ _. (f, w))

  Stands-new :
      IsFresh s
      → Stands recorded (new_change type table row now s) (event_from s table type new_row)
  unfolding record_change event_from with_id
  Stands-new fresh =
      let none_before =
        with_id-below _ (log_of s table).next (log_of s table).rows (fresh table) (omega arith) in
      let (f, w) =
        log-cases table table _ s.logs
          (λ l.
            (find_pending new_row.id l.rows ≡ some new_row)
            × (with_id new_row.id l.rows ≡ new_row ∷ []))
          (λ _. (
            find_pending-last (log_of s table).rows new_row refl none_before,
            rw (with_id-append, none_before) (ground arith),
          ))
          (λ ne. absurd (ne refl)) in
      (new_row, f, w, refl)

  IsFresh-recorded : IsFresh s → IsFresh recorded
  unfolding record_change
  IsFresh-recorded h t =
      log-cases table t _ s.logs (λ l. All (λ (r : LogRow). r.id < l.next) l.rows)
        (λ _.
          All-append _ (log_of s table).rows (new_row ∷ [])
            (All-map _ _ (log_of s table).rows (λ r b. omega arith) (h table)) (omega arith, tt))
        (λ _. h t)

module _ (columns : String → List ColumnInfo) (hash : String) where
  -- The event that the specification appends.
  event_from_lem :
      (type table : String) (row : Row) (now : ℕ) (s : StreamDb) (q : Feed)
      → Implements columns hash s q
      → event_from s table type (new_row type table row now s) ≡ record {
        id = q.next table;
        type = type;
        table_name = table;
        row = select_columns (columns table) row;
        schema_hash = hash;
        table_info = columns table;
      }
  unfolding event_from
  event_from_lem type table row now s q h =
      rw (h.next table, h.columns_same table, h.hash_same) refl

  recorded-Implements :
      (type table : String) (row : Row) (now : ℕ) (s : StreamDb) (q : Feed)
      → Implements columns hash s q
      → Implements columns hash
          (recorded type table row now s)
          (enqueue columns hash type table row q)
  unfolding record_change enqueue
  recorded-Implements type table row now s q h = record {
    consistent = unfold capture in capture-IsConsistent false type table row now s h.consistent;
    fresh = IsFresh-recorded type table row now s h.fresh;
    waiting =
        LineUp-append (recorded type table row now s) s.global q.waiting
          (new_change type table row now s) _
          (LineUp-map s (recorded type table row now s) (IsBelow s.logs)
            (Stands-recorded type table row now s) s.global q.waiting h.consistent.below h.waiting)
          (subst (Stands (recorded type table row now s) (new_change type table row now s))
            (event_from_lem type table row now s q h) (Stands-new type table row now s h.fresh));
    taken = h.taken;
    next = λ t. rw log-insert (elim (Bool-cases (table ≐ t)) [
      | inl e ↦ rw e (ap suc (h.next table))
      | inr e ↦ rw e (h.next t)
    ]);
    columns_same = h.columns_same;
    hash_same = h.hash_same;
  }

  pub change-Implements :
      (own : Bool) (type table : String) (row : Row) (now : ℕ) (s : StreamDb) (q : Feed)
      → Implements columns hash s q
      → Implements columns hash
          (capture own type table row now s)
          (feed_step columns hash (change own type table row now) q)
  unfolding capture feed_step
  change-Implements true type table row now s q h = h
  change-Implements false type table row now s q h = recorded-Implements type table row now s q h

  cleaned-Implements :
      (before : ℕ) (t : String) (s : StreamDb) (q : Feed)
      → Implements columns hash s q
      → Implements columns hash (cleaned before t s) q
  cleaned-Implements before t s q h = record {
    consistent = cleaned-IsConsistent before t s h.consistent;
    fresh = λ u.
        log-cases t u _ s.logs (λ l. All (λ (r : LogRow). r.id < l.next) l.rows)
          (λ _. unfold delete_old in All-keep _ _ (log_of s t).rows (h.fresh t)) (λ _. h.fresh u);
    waiting =
        LineUp-map s (cleaned before t s) (IsBelow s.logs) (λ c e _. Stands-cleaned c e) s.global
          q.waiting h.consistent.below h.waiting;
    taken = h.taken;
    next = λ u.
        log-cases t u _ s.logs (λ l. l.next ≡ q.next u) (λ e. rw (← e) (h.next t)) (λ _. h.next u);
    columns_same = h.columns_same;
    hash_same = h.hash_same;
  }
    where
      Stands-cleaned :
          (c : GlobalChange) (e : ChangeLogEvent) → Stands s c e → Stands (cleaned before t s) c e
      Stands-cleaned c e = Stands-to s (cleaned before t s) c e refl refl λ r f w.
          log-cases t c.table_name _ s.logs
            (λ l.
              (find_pending c.change_table_id l.rows ≡ some r)
              × (with_id c.change_table_id l.rows ≡ r ∷ []))
            (λ same. (
              rw (find_pending-delete_old, same) f,
              with_id-delete_old c.change_table_id before (log_of s t).rows r (rw same f)
                  (rw same w),
            ))
            (λ _. (f, w))

  pub cleanup-Implements :
      (fails : String → Outcome) (before : ℕ) (ts : List String) (total : ℕ) (s : StreamDb)
      (q : Feed)
      → Implements columns hash s q
      → Implements columns hash (cleanup_change_logs fails before ts total s).1 q
  unfolding cleanup_change_logs
  cleanup-Implements fails before [] total s q h = h
  cleanup-Implements fails before (t ∷ ts) total s q h = by_result (fails t) _ (
      cleanup-Implements fails before ts _ (cleaned before t s) q
        (cleaned-Implements before t s q h))
    where
      by_result :
          (x : Outcome) (r : Result ℕ × StreamDb)
          → Implements columns hash r.1 q
          → Implements columns hash
              (let z : Result ℕ × StreamDb = elim x [ err e ↦ (err e, s) | ok _ ↦ r ] in z).1
              q
      by_result (err e) r k = h
      by_result (ok u) r k = k
