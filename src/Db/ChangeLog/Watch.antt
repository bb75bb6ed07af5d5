-- ===== src/Db/ChangeLog/Watch.antt =====
-- The watcher of db/change_log.go, `watchChanges` with `filterChangesTo`, and `WithReadTx` of
-- db/sqlite.go. What fsnotify, the ticker and SQLite do in a turn is an argument, and so is what
-- others do to the database before it.
pub mod Drained
use harmonylite.Prelude.{
  keep, ℕ, not, List, [], ◌∷◌, ◌==◌, Result, Outcome, end_of_watch, exited, ok, err,
}
use harmonylite.Db.ChangeLog.{StreamDb}
use harmonylite.Db.ChangeLog.Publication.{
  Env, Finish, publish_change_log, panicked, finished, broken_off, returned,
}

-- The events that are forwarded, by their `Op`; the channel is closed after them.
unfoldable pub filter_changes_to : ℕ → List ℕ → List ℕ
filter_changes_to chmod = keep (λ op. not (op == chmod))

-- What the `select` takes: a change, the closed channel, or the ticker.
pub data Wake : Type 0 where
  changed closed timed_out : Wake

-- What `watcher.Add` returns for the database, its `-shm` and its `-wal` file.
pub record Added : Type 0 where
  pub db : Outcome
  pub shm : Outcome
  pub wal : Outcome

pub record Turn : Type 0 where
  pub others : StreamDb → StreamDb
  pub opened : Outcome
  pub wake : Wake
  pub env : Env
  -- After an error all files are added again, and then those that could not be.
  pub resubscribed : Added
  pub retried : Added

pub record Watch : Type 0 where
  pub added : Added
  pub db : StreamDb

-- `WithReadTx`, by whether the connection could be opened. A panic of the callback is recovered, and
-- the result is then nil. Whether the transaction began is not looked at.
unfoldable pub with_read_tx :
    Outcome → (StreamDb → Result Outcome × StreamDb) → StreamDb → Outcome × StreamDb
with_read_tx (err e) callback s = (err e, s)
with_read_tx (ok _) callback s =
    let (r, s') = callback s in elim r [ err _ ↦ (ok tt, s') | ok result ↦ (result, s') ]

-- `err exited` stands for the panic.
pub published_or_panicked : Finish × StreamDb → Result Outcome × StreamDb
published_or_panicked (panicked, s) = (err exited, s)
published_or_panicked (finished, s) = (ok (ok tt), s)
published_or_panicked (broken_off, s) = (ok (ok tt), s)
published_or_panicked (returned, s) = (ok (ok tt), s)

pub on_wake : Env → Wake → StreamDb → Result Outcome × StreamDb
unfolding published_or_panicked
on_wake env closed s = (ok (err end_of_watch), s)
on_wake env changed s = published_or_panicked (publish_change_log env s)
on_wake env timed_out s = published_or_panicked (publish_change_log env s)

abbrev again : Outcome → Outcome → Outcome
again (err e) retried = retried
again (ok u) retried = ok u

pub resubscribe : Turn → Added → Outcome → Added
resubscribe t a r =
    let now : Added = elim r [ err _ ↦ t.resubscribed | ok _ ↦ a ] in
    record {
      db = again now.db t.retried.db;
      shm = again now.shm t.retried.shm;
      wal = again now.wal t.retried.wal;
    }

-- One turn of the loop.
unfoldable pub turn : Turn → Watch → Watch
unfolding on_wake with_read_tx resubscribe
turn t w =
    let (r, s) = with_read_tx t.opened (on_wake t.env t.wake) (t.others w.db) in
    record { added = resubscribe t w.added r; db = s }

unfoldable pub watch_turns : List Turn → Watch → Watch
unfolding turn
watch_turns [] w = w
watch_turns (t ∷ ts) w = watch_turns ts (turn t w)

-- `watchChanges`. The first publication runs outside of `WithReadTx`, and its panic ends the process.
unfoldable pub watch_changes : Added → Env → List Turn → StreamDb → Result Watch × StreamDb
unfolding watch_turns
watch_changes added env ts s =
    let (f, s') = publish_change_log env s in
    let w = watch_turns ts (record { added = added; db = s' }) in
    elim f [ panicked ↦ (err exited, s') | _ ↦ (ok w, w.db) ]
