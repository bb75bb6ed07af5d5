-- ===== src/Tests/ChangeLogTests.antt =====
-- The theorems on the change log at concrete inputs.
use harmonylite.Prelude.{
  All, lookup, ℕ, ◌≡◌, refl, ◌≢◌, true, some, [], ◌∷◌, arith, Outcome, external, ok, err, string_eq,
  nat_eq,
}
use harmonylite.Db.Event.{ColumnInfo, Row, int, ChangeLogEvent, null}
use harmonylite.Db.ChangeLog.{
  LogRow, pending, published, GlobalChange, StreamDb, cleanup_change_logs,
}
use harmonylite.Db.ChangeLog.Publication.{
  Env, find_pending, with_id, publish_one, publish_change_log, panicked,
}
use harmonylite.Db.ChangeLog.Invariant.{IsConsistent}
use harmonylite.Db.ChangeLog.Invariant.Publish.{publish_safe}
use harmonylite.Db.ChangeLog.Delivery.{Kept}
use harmonylite.Db.ChangeLog.Delivery.Published.{publish_keeps}
use harmonylite.Db.ChangeLog.Delivery.Lost.{refused_is_lost}
use harmonylite.Db.ChangeLog.Cleanup.{cleanup-Exact, Exact}
use harmonylite.Db.ChangeLog.Publication.{go as step_go}

abbrev id_column : ColumnInfo
id_column = record {
  name = "id";
  type = "INTEGER";
  not_null = true;
  default_value = null;
  primary_key_index = 1;
  is_primary_key = true;
}

abbrev row : ℕ → Row
row n = ("id", int n) ∷ []

abbrev old_row : LogRow
old_row = record { id = 1; type = "insert"; row = row 10; created_at = 5; state = published }

abbrev new_row : LogRow
new_row = record { id = 2; type = "insert"; row = row 11; created_at = 6; state = pending }

abbrev change : GlobalChange
change = record { id = 4; change_table_id = 2; table_name = "books" }

abbrev db : StreamDb
db = record {
  logs = ("books", record { rows = old_row ∷ new_row ∷ []; next = 3 }) ∷ [];
  global = change ∷ [];
  next_global = 5;
  watch_tables_schema = ("books", id_column ∷ []) ∷ [];
  schema_hash = "abc";
  sent = [];
}

db-IsConsistent : IsConsistent db
unfolding find_pending lookup
db-IsConsistent = record {
  queued = ((λ e. cc), tt);
  apart = (tt, tt);
  below = (omega arith, tt);
  ids = (omega arith, tt);
}

-- Taking every event, and refusing every event with an error of the given kind.
abbrev take_all : ChangeLogEvent → Outcome
take_all e = ok tt

abbrev refuse : ChangeLogEvent → Outcome
refuse e = err (external 1)

abbrev env : (ChangeLogEvent → Outcome) → Env
env f = record {
  lock_free = true;
  count = ok tt;
  scan = ok tt;
  scan_max_changes = 100;
  entry = λ n. ok tt;
  fetch = λ n. ok tt;
  on_change = some f;
  mark = λ n. ok tt;
}

publish_safe_example :
    IsConsistent (publish_change_log (env refuse) db).1
    × ((publish_change_log (env refuse) db).0 ≢ panicked)
publish_safe_example = publish_safe (env refuse) db db-IsConsistent

publish_keeps_example : Kept db (publish_change_log (env take_all) db).1
publish_keeps_example =
    publish_keeps (env take_all) take_all refl (λ e x h. cc) (λ n. refl) db db-IsConsistent

refused_is_lost_example :
    (t : StreamDb) × (publish_one (env refuse) change db ≡ step_go t)
    × All (λ (g : GlobalChange). g.id ≢ 4) t.global
    × (t.sent ≡ [])
unfolding find_pending with_id lookup
refused_is_lost_example =
    refused_is_lost (env refuse) refuse change db new_row (external 1) refl refl refl refl refl refl
      refl refl

cleanup-Exact_example :
    Exact
      (λ t. ok tt)
      5
      (λ t. refl)
      ("books" ∷ [])
      0
      db
      (cleanup_change_logs (λ t. ok tt) 5 ("books" ∷ []) 0 db)
cleanup-Exact_example = cleanup-Exact (λ t. ok tt) 5 (λ t. refl) ("books" ∷ []) 0 db (tt, tt)
