-- ===== src/Db/ChangeLog/Publication.antt =====
-- The publication of changes of db/change_log.go: `publishChangeLog`, `consumeChangeLogs` and
-- `markChangePublished`. Whether SQLite or the pool fails is an argument (`Env`); left out is a
-- break-off while the selected row is stepped to, which the code takes for the end of the rows.
use harmonylite.Prelude.{
  length, take, lookup, insert, ℕ, String, Bool, true, false, ◌&&◌, Option, none, some, List, [],
  ◌∷◌, ◌++◌, ltb, ◌==◌, if◌then◌else◌, Err, Outcome, canceled, log_not_ready, ok, err, string_eq,
  nat_eq,
}
use harmonylite.Db.Event.Hashing.{or_null}
use harmonylite.Db.Event.{Row, ColumnInfo, ChangeLogEvent}
use harmonylite.Db.ChangeLog.{
  ChangeState, GlobalChange, LogRow, StreamDb, columns_of, log_of, pending, published,
}

-- What the calls of one publication return, by the change's id in the global list. `on_change` is
-- the field `OnChange`.
pub record Env : Type 0 where
  pub lock_free : Bool
  pub count : Outcome
  pub scan : Outcome
  pub scan_max_changes : ℕ
  pub entry : ℕ → Outcome
  pub fetch : ℕ → Outcome
  pub on_change : Option (ChangeLogEvent → Outcome)
  pub mark : ℕ → Outcome

abbrev pub is_pending : ChangeState → Bool
is_pending pending = true
is_pending _ = false

-- `WHERE state = Pending AND id = ?`
unfoldable pub find_pending : ℕ → List LogRow → Option LogRow
find_pending n [] = none
find_pending n (r ∷ rs) = if is_pending r.state && r.id == n then some r else find_pending n rs

-- `WHERE id IN (?)`
unfoldable pub with_id : ℕ → List LogRow → List LogRow
with_id n [] = []
with_id n (r ∷ rs) = let rest = with_id n rs in if r.id == n then r ∷ rest else rest

-- `SELECT val_<col> AS <col>, ...`
unfoldable pub select_columns : List ColumnInfo → Row → Row
select_columns [] row = []
select_columns (c ∷ cs) row = (c.name, or_null (lookup c.name row)) ∷ select_columns cs row

-- The event that a row of the log becomes; its type is that of the entry.
unfoldable pub event_from : StreamDb → String → String → LogRow → ChangeLogEvent
unfolding select_columns
event_from s table type r = record {
  id = r.id;
  type = type;
  table_name = table;
  row = select_columns (columns_of s table) r.row;
  schema_hash = s.schema_hash;
  table_info = columns_of s table;
}

-- The loop over the rows that `fetchChangeRows` selects.
unfoldable pub offer :
    Option (ChangeLogEvent → Outcome)
    → String
    → String
    → List LogRow
    → StreamDb
    → Outcome × StreamDb
unfolding event_from
offer on_change table type [] s = (ok tt, s)
offer none table type (r ∷ rs) s = offer none table type rs s
offer (some f) table type (r ∷ rs) s =
    let e = event_from s table type r in
    let rest = offer (some f) table type rs (record s { sent = s.sent ++ e ∷ [] }) in
    elim (f e) [ err x ↦ (err x, s) | ok _ ↦ rest ]

unfoldable pub consume_change_logs : Env → GlobalChange → LogRow → StreamDb → Outcome × StreamDb
unfolding offer with_id
consume_change_logs env c entry s = elim (env.fetch c.id) [
  | err e ↦ (err e, s)
  | ok _ ↦
      offer env.on_change c.table_name entry.type (with_id entry.id (log_of s c.table_name).rows) s
]

unfoldable pub set_published : ℕ → List LogRow → List LogRow
set_published n [] = []
set_published n (r ∷ rs) =
    (if r.id == n then record r { state = published } else r) ∷ set_published n rs

unfoldable pub without : ℕ → List GlobalChange → List GlobalChange
without n [] = []
without n (c ∷ cs) = let rest = without n cs in if c.id == n then rest else c ∷ rest

-- The two statements of the transaction: the row's state is set, and the change is deleted.
unfoldable pub marked : GlobalChange → StreamDb → StreamDb
unfolding set_published without
marked c s =
    let log = log_of s c.table_name in
    record s {
      logs =
          insert c.table_name (record log { rows = set_published c.change_table_id log.rows })
            s.logs;
      global = without c.id s.global;
    }

-- Both statements happen, or neither.
unfoldable pub mark_change_published : Env → GlobalChange → StreamDb → StreamDb
unfolding marked
mark_change_published env c s = elim (env.mark c.id) [ err _ ↦ s | ok _ ↦ marked c s ]

-- How a publication ends: the loop is through or broken off, the method returned, or it panicked.
pub data Finish : Type 0 where
  finished broken_off returned panicked : Finish

pub data Step : Type 0 where
  go : StreamDb → Step
  stop : Finish → StreamDb → Step

abbrev pub is_transient : Err → Bool
is_transient log_not_ready = true
is_transient canceled = true
is_transient _ = false

-- A failure that is not transient is logged, and the change is marked all the same.
unfoldable pub on_consumed : Env → GlobalChange → Outcome × StreamDb → Step
unfolding mark_change_published
on_consumed env c (ok _, s) = go (mark_change_published env c s)
on_consumed env c (err e, s) =
    if is_transient e then stop broken_off s else go (mark_change_published env c s)

-- A change with no pending row is logged by `Panic`.
unfoldable pub on_found : Env → GlobalChange → StreamDb → Option LogRow → Step
unfolding on_consumed consume_change_logs
on_found env c s none = stop panicked s
on_found env c s (some entry) = on_consumed env c (consume_change_logs env c entry s)

unfoldable pub publish_one : Env → GlobalChange → StreamDb → Step
unfolding on_found find_pending
publish_one env c s = elim (env.entry c.id) [
  | err _ ↦ stop returned s
  | ok _ ↦ on_found env c s (find_pending c.change_table_id (log_of s c.table_name).rows)
]

abbrev pub after : Step → (StreamDb → Finish × StreamDb) → Finish × StreamDb
after (go s) rest = rest s
after (stop f s) rest = (f, s)

unfoldable pub publish_loop : Env → List GlobalChange → StreamDb → Finish × StreamDb
publish_loop env [] s = (finished, s)
publish_loop env (c ∷ cs) s = after (publish_one env c s) (publish_loop env cs)

-- `publishChangeLog`. The count and the scan see the same list, and an empty one ends the method.
unfoldable pub publish_change_log : Env → StreamDb → Finish × StreamDb
publish_change_log env s =
    if env.lock_free
    then elim env.count [
      | err _ ↦ (returned, s)
      | ok _ ↦ elim env.scan [
        | err _ ↦ (returned, s)
        | ok _ ↦
            if ltb 0 (length s.global)
            then publish_loop env (take env.scan_max_changes s.global) s
            else (returned, s)
      ]
    ]
    else (returned, s)
