-- ===== src/Db/ChangeLog/Watch/Drained.antt =====
-- The watcher of db/change_log.go over enough turns.
use harmonylite.Prelude.{
  length, All, ℕ, suc, ◌*◌, ◌≤◌, String, ◌≡◌, refl, ap, ◌∙◌, ◌≢◌, Bool, true, false, List, [], ◌∷◌,
  ◌++◌, arith, if◌then◌else◌, Result, Outcome, exited, ok, err,
}
use harmonylite.Db.Event.{ColumnInfo}
use harmonylite.Db.ChangeLog.{StreamDb, ColumnInfo}
use harmonylite.Db.ChangeLog.Publication.{
  Env, Finish, publish_change_log, panicked, finished, broken_off, returned,
}
use harmonylite.Db.ChangeLog.Watch.{
  Wake, changed, closed, timed_out, Added, Turn, Watch, with_read_tx, on_wake,
  published_or_panicked, turn, watch_turns, watch_changes,
}
use harmonylite.Db.ChangeLog.Feed.{Implements, Feed, working, step, run, publication}
use harmonylite.Db.ChangeLog.Feed.Run.{accept, publications, publications_drain}
use harmonylite.Db.ChangeLog.Invariant.Publish.{publish_safe}

-- The turn publishes: the database was opened, and a change or the ticker woke it.
abbrev pub is_publishing : Outcome → Wake → Bool
is_publishing (err e) wake = false
is_publishing (ok u) closed = false
is_publishing (ok u) _ = true

abbrev pub publishing : List Turn → ℕ
publishing [] = 0
publishing (t ∷ ts) = if is_publishing t.opened t.wake then suc (publishing ts) else publishing ts

-- Nobody else changes the database, the statements of a publication succeed, and its events are
-- taken.
abbrev pub AreWorking : ℕ → List Turn → Type 0
AreWorking n = All (λ t. ((s : StreamDb) → t.others s ≡ s) × (t.env ≡ working n accept))

published-same : (x : Finish × StreamDb) → (published_or_panicked x).1 ≡ x.1
unfolding published_or_panicked
published-same (panicked, s) = refl
published-same (finished, s) = refl
published-same (broken_off, s) = refl
published-same (returned, s) = refl

with_read_tx-state :
    (callback : StreamDb → Result Outcome × StreamDb) (s : StreamDb)
    → (with_read_tx (ok tt) callback s).1 ≡ (callback s).1
unfolding with_read_tx
with_read_tx-state callback s = ground arith

-- A turn publishes, or leaves the database.
turn-step :
    (n : ℕ) (t : Turn) (w : Watch)
    → ((s : StreamDb) → t.others s ≡ s)
    → t.env ≡ working n accept
    → (turn t w).db
      ≡ (if is_publishing t.opened t.wake then step (publication n accept) w.db else w.db)
unfolding turn step
turn-step n t w idle env = rw (env, idle w.db) (by_turn t.opened t.wake)
  where
    by_turn :
        (o : Outcome) (k : Wake)
        → (with_read_tx o (on_wake (working n accept) k) w.db).1
          ≡ (if is_publishing o k then step (publication n accept) w.db else w.db)
    by_turn (err e) k = unfold with_read_tx in refl
    by_turn (ok u) closed = with_read_tx-state (on_wake (working n accept) closed) w.db
    by_turn (ok u) changed =
        with_read_tx-state (on_wake (working n accept) changed) w.db
        ∙ published-same (publish_change_log (working n accept) w.db)
    by_turn (ok u) timed_out =
        with_read_tx-state (on_wake (working n accept) timed_out) w.db
        ∙ published-same (publish_change_log (working n accept) w.db)

-- The turns come to as many publications as publish.
watch_turns-run :
    (n : ℕ) (ts : List Turn) (w : Watch)
    → AreWorking n ts
    → (watch_turns ts w).db ≡ run (publications (publishing ts) n) w.db
unfolding watch_turns run
watch_turns-run n [] w h = refl
watch_turns-run n (t ∷ ts) w ((idle, env), h) =
    watch_turns-run n ts (turn t w) h
    ∙ ap (run (publications (publishing ts) n)) (turn-step n t w idle env)
    ∙ by_turn (is_publishing t.opened t.wake)
  where
    by_turn :
        (b : Bool)
        → run
            (publications (publishing ts) n)
            (if b then step (publication n accept) w.db else w.db)
          ≡ run (publications (if b then suc (publishing ts) else publishing ts) n) w.db
    by_turn true = refl
    by_turn false = refl

watch_changes-ok :
    (added : Added) (env : Env) (ts : List Turn) (s : StreamDb)
    → (publish_change_log env s).0 ≢ panicked
    → (w : Watch) × (watch_changes added env ts s ≡ (ok w, w.db))
      × (w.db ≡ (watch_turns ts (record { added = added; db = (publish_change_log env s).1 })).db)
unfolding watch_changes
watch_changes-ok added env ts s = by_finish (publish_change_log env s)
  where
    by_finish :
        (x : Finish × StreamDb)
        → x.0 ≢ panicked
        → let w = watch_turns ts (record { added = added; db = x.1 }) in
          (v : Watch) × ((elim x.0 as (λ _. Result Watch × StreamDb) [
            | panicked ↦ (err exited, x.1)
            | _ ↦ (ok w, w.db)
          ])
            ≡ (ok v, v.db))
          × (v.db ≡ w.db)
    by_finish (panicked, t) ne = absurd (ne refl)
    by_finish (finished, t) ne = (_, refl, refl)
    by_finish (broken_off, t) ne = (_, refl, refl)
    by_finish (returned, t) ne = (_, refl, refl)

-- On a database that holds a feed, a watcher does not end, and if its turns that publish, with the
-- publication before the first, are enough for the listed changes at `n` a time, then after them the
-- change log is empty and the waiting events were taken in order, whatever the other turns do: the
-- database cannot be opened, the channel is closed, files cannot be watched. Nobody else changes the
-- database, no statement of a publication fails, and each event is taken.
pub watch_drains :
    (columns : String → List ColumnInfo) (hash : String) (n : ℕ) (added : Added) (ts : List Turn)
    (s : StreamDb) (q : Feed)
    → Implements columns hash s q
    → AreWorking n ts
    → length s.global ≤ suc (publishing ts) * n
    → (w : Watch) × (watch_changes added (working n accept) ts s ≡ (ok w, w.db))
      × (w.db.global ≡ [])
      × (w.db.sent ≡ q.taken ++ q.waiting)
unfolding run step
watch_drains columns hash n added ts s q h working_turns enough =
    let (w, ended, same) =
      watch_changes-ok added (working n accept) ts s
        (publish_safe (working n accept) s h.consistent).1 in
    let (empty, taken) = publications_drain columns hash n (suc (publishing ts)) s q h enough in
    let drained =
      same
      ∙ watch_turns-run n ts (record { added = added; db = step (publication n accept) s })
          working_turns in
    (
      w,
      ended,
      ap (λ (d : StreamDb). d.global) drained ∙ empty,
      ap (λ (d : StreamDb). d.sent) drained ∙ taken,
    )
