-- ===== src/Tests/FeedTests.antt =====
-- The change log's contract at concrete inputs.
use harmonylite.Prelude.{
  length, Dict, ℕ, String, ◌≡◌, refl, true, false, List, [], ◌∷◌, ◌++◌, arith, Outcome, canceled,
  invalid_operation, ok, err,
}
use harmonylite.Db.Event.{ColumnInfo, int, ChangeLogEvent, null}
use harmonylite.Db.ChangeLog.{StreamDb, columns_of, capture}
use harmonylite.Db.ChangeLog.Feed.{
  Implements, Op, change, publication, cleanup, run, feed_run, step, Feed, feed_step,
}
use harmonylite.Db.ChangeLog.Feed.Run.{new_db, new_feed, run_refines}
use harmonylite.Db.ChangeLog.Feed.{working}
use harmonylite.Db.ChangeLog.Feed.Run.{accept}
use harmonylite.Db.ChangeLog.Watch.{
  Added, Wake, Turn, Watch, watch_changes, changed, closed, timed_out,
}
use harmonylite.Db.ChangeLog.Watch.Drained.{watch_drains}

abbrev id_column : ColumnInfo
id_column = record {
  name = "id";
  type = "INTEGER";
  not_null = true;
  default_value = null;
  primary_key_index = 1;
  is_primary_key = true;
}

abbrev schema : Dict String (List ColumnInfo)
schema = ("books", id_column ∷ []) ∷ []

abbrev book : ℕ → Op
book n = change false "insert" "books" (("id", int n) ∷ []) 100

-- The first event is refused with a transient error, and then taken.
abbrev refuse : ChangeLogEvent → Outcome
refuse e = err canceled

abbrev ops : List Op
ops =
    book 7
    ∷ change true "insert" "books" (("id", int 8) ∷ []) 100
    ∷ publication 10 refuse
    ∷ book 9
    ∷ publication 1 (λ e. ok tt)
    ∷ cleanup (λ t. ok tt) 200 ("books" ∷ [])
    ∷ []

run_refines_example :
    Implements
      (columns_of (new_db schema "abc"))
      "abc"
      (run ops (new_db schema "abc"))
      (feed_run (columns_of (new_db schema "abc")) "abc" ops new_feed)
run_refines_example = run_refines schema "abc" ops

abbrev two_changes : List Op
two_changes = book 7 ∷ book 9 ∷ []

abbrev db : StreamDb
db = run two_changes (new_db schema "abc")

abbrev feed : Feed
feed = feed_run (columns_of (new_db schema "abc")) "abc" two_changes new_feed

two_listed : length db.global ≡ 2
unfolding run step capture
two_listed = refl

-- After the refusal and the publication the second book waits.
one_waits : length (feed_run (columns_of (new_db schema "abc")) "abc" ops new_feed).waiting ≡ 1
unfolding feed_run feed_step
one_waits = refl

abbrev all_added : Added
all_added = record { db = ok tt; shm = err invalid_operation; wal = ok tt }

abbrev waking : Outcome → Wake → Turn
waking opened wake = record {
  others = λ s. s;
  opened = opened;
  wake = wake;
  env = working 1 accept;
  resubscribed = all_added;
  retried = all_added;
}

abbrev wakes : List Turn
wakes =
    waking (err invalid_operation) changed ∷ waking (ok tt) closed ∷ waking (ok tt) timed_out ∷ []

watch_drains_example :
    (w : Watch) × (watch_changes all_added (working 1 accept) wakes db ≡ (ok w, w.db))
    × (w.db.global ≡ [])
    × (w.db.sent ≡ feed.taken ++ feed.waiting)
watch_drains_example =
    watch_drains (columns_of (new_db schema "abc")) "abc" 1 all_added wakes db feed
      (run_refines schema "abc" two_changes)
      (((λ s. refl), refl), (((λ s. refl), refl), (((λ s. refl), refl), tt)))
      (omega (arith, two_listed))
