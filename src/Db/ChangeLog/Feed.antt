-- ===== src/Db/ChangeLog/Feed.antt =====
-- The contract of the change log of db/change_log.go: an ordered feed. A change is appended to it
-- as the event that will be sent; a publication hands over events from its front, in order. The
-- operations of the change tables are run beside it.
pub mod Stored
pub mod Captured
pub mod Published
pub mod Run
use harmonylite.Prelude.{
  All, ◌≐◌, ℕ, zero, suc, ◌<◌, String, ◌≡◌, Bool, true, some, List, [], ◌∷◌, ◌++◌, if◌then◌else◌,
  Outcome, ok, err, string_eq, nat_eq,
}
use harmonylite.Db.Event.{Row, ColumnInfo, ChangeLogEvent}
use harmonylite.Db.ChangeLog.{
  StreamDb, LogRow, capture, cleanup_change_logs, log_of, columns_of, GlobalChange,
}
use harmonylite.Db.ChangeLog.Publication.{
  Env, publish_change_log, select_columns, is_transient, find_pending, with_id, event_from,
}
use harmonylite.Db.ChangeLog.Invariant.{IsConsistent}

-- The events that wait, those that were handed over, and each table's next event id.
pub record Feed : Type 0 where
  pub waiting : List ChangeLogEvent
  pub taken : List ChangeLogEvent
  pub next : String → ℕ

-- What happens to the database: a statement of an application or of HarmonyLite, a publication in
-- which no statement fails (at most `n` changes, and what `OnChange` returns), a clean-up.
pub data Op : Type 0 where
  change : Bool → String → String → Row → ℕ → Op
  publication : ℕ → (ChangeLogEvent → Outcome) → Op
  cleanup : (String → Outcome) → ℕ → List String → Op

-- A publication whose statements all succeed.
abbrev pub working : ℕ → (ChangeLogEvent → Outcome) → Env
working n f = record {
  lock_free = true;
  count = ok tt;
  scan = ok tt;
  scan_max_changes = n;
  entry = λ _. ok tt;
  fetch = λ _. ok tt;
  on_change = some f;
  mark = λ _. ok tt;
}

unfoldable pub step : Op → StreamDb → StreamDb
step (change own type table row now) s = capture own type table row now s
step (publication n f) s = (publish_change_log (working n f) s).1
step (cleanup fails before tables) s = (cleanup_change_logs fails before tables 0 s).1

unfoldable pub run : List Op → StreamDb → StreamDb
run [] s = s
run (op ∷ ops) s = run ops (step op s)

-- The events that still wait, and those taken, after at most `n` offers: an error that is not
-- transient drops its event, and a transient one ends the publication.
unfoldable pub pass :
    (ChangeLogEvent → Outcome)
    → ℕ
    → List ChangeLogEvent
    → List ChangeLogEvent
    → List ChangeLogEvent × List ChangeLogEvent
pass f zero es done = (es, done)
pass f (suc n) [] done = ([], done)
pass f (suc n) (e ∷ es) done =
    let accepted = pass f n es (done ++ e ∷ []) in
    let dropped = pass f n es done in
    elim (f e) [ ok _ ↦ accepted | err x ↦ if is_transient x then (e ∷ es, done) else dropped ]

-- The feed of a database with the given columns and schema hash.
module _ (columns : String → List ColumnInfo) (hash : String) where
  unfoldable pub enqueue : String → String → Row → Feed → Feed
  unfolding select_columns
  enqueue type table row q =
      let e : ChangeLogEvent = record {
        id = q.next table;
        type = type;
        table_name = table;
        row = select_columns (columns table) row;
        schema_hash = hash;
        table_info = columns table;
      } in
      record {
        waiting = q.waiting ++ e ∷ [];
        taken = q.taken;
        next = λ t. if table ≐ t then suc (q.next table) else q.next t;
      }

  unfoldable pub feed_step : Op → Feed → Feed
  unfolding enqueue pass
  feed_step (change own type table row now) q = if own then q else enqueue type table row q
  feed_step (publication n f) q =
      let r = pass f n q.waiting q.taken in record q { waiting = r.0; taken = r.1 }
  feed_step (cleanup fails before tables) q = q

  unfoldable pub feed_run : List Op → Feed → Feed
  unfolding feed_step
  feed_run [] q = q
  feed_run (op ∷ ops) q = feed_run ops (feed_step op q)

-- The event stands for the change: the change's row is the only one of its id, it is pending, and
-- the event is made of it.
abbrev pub Stands : StreamDb → GlobalChange → ChangeLogEvent → Type 0
Stands s c e =
    (r : LogRow) × (find_pending c.change_table_id (log_of s c.table_name).rows ≡ some r)
    × (with_id c.change_table_id (log_of s c.table_name).rows ≡ r ∷ [])
    × (e ≡ event_from s c.table_name r.type r)

abbrev pub LineUp : StreamDb → List GlobalChange → List ChangeLogEvent → Type 0
LineUp s [] [] = Unit {0}
LineUp s [] (e ∷ es) = ⊥
LineUp s (c ∷ cs) [] = ⊥
LineUp s (c ∷ cs) (e ∷ es) = Stands s c e × LineUp s cs es

-- Each table's log holds ids below its next one.
abbrev pub IsFresh : StreamDb → Type 0
IsFresh s = (t : String) → All (λ (r : LogRow). r.id < (log_of s t).next) (log_of s t).rows

-- The database holds the feed.
pub record Implements (columns : String → List ColumnInfo) (hash : String) (s : StreamDb) (q : Feed)
    : Type 0 where
  pub consistent : IsConsistent s
  pub fresh : IsFresh s
  pub waiting : LineUp s s.global q.waiting
  pub taken : s.sent ≡ q.taken
  pub next : (t : String) → (log_of s t).next ≡ q.next t
  pub columns_same : (t : String) → columns_of s t ≡ columns t
  pub hash_same : s.schema_hash ≡ hash
