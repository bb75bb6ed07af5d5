-- ===== src/Db/ChangeLog/Cleanup.antt =====
-- `CleanupChangeLogs` of db/change_log.go.
use harmonylite.Prelude.{
  length, All, All-map, keep, tests, ◌≐◌, ≐_refl, insert, ℕ, ◌+◌, ◌-◌, ◌≤◌, String, ◌≡◌, refl, sym,
  ap, ◌∙◌, subst, ◌≢◌, inl, inr, Bool, true, ◌↔◌, List, [], ◌∷◌, arith, eq_iff, Bool-cases, Result,
  Outcome, ok, err, string_eq, nat_eq,
}
use harmonylite.Db.ChangeLog.Invariant.{IsConsistent, log-insert, IsQueued, IsBelow}
use harmonylite.Db.ChangeLog.{
  StreamDb, is_old, is_published, ChangeState, pending, published, failed, log_of,
  cleanup_change_logs, LogRow, delete_old, ChangeTable,
}
use harmonylite.Db.ChangeLog.Publication.{find_pending}

pub find_pending-delete_old :
    (n before : ℕ) (rs : List LogRow) → find_pending n (delete_old before rs) ≡ find_pending n rs
unfolding find_pending delete_old keep
find_pending-delete_old n before [] = refl
find_pending-delete_old n before (r ∷ rs) = ground (arith, find_pending-delete_old n before rs)

-- The database after the statement for one table.
abbrev pub cleaned : ℕ → String → StreamDb → StreamDb
cleaned before t s = record s {
  logs = insert t (record (log_of s t) { rows = delete_old before (log_of s t).rows }) s.logs;
}

find_pending-cleaned :
    (before n : ℕ) (t k : String) (s : StreamDb)
    → (find_pending n (log_of (cleaned before t s) k).rows ≡ find_pending n (log_of s k).rows)
      × ((log_of (cleaned before t s) k).next ≡ (log_of s k).next)
find_pending-cleaned before n t k s = rw log-insert (elim (Bool-cases (t ≐ k)) [
  | inl e ↦
      let same = (eq_iff t k).0 e in
      rw (e, same) (find_pending-delete_old n before (log_of s k).rows, refl)
  | inr e ↦ rw e (refl, refl)
])

pub cleaned-IsConsistent :
    (before : ℕ) (t : String) (s : StreamDb) → IsConsistent s → IsConsistent (cleaned before t s)
cleaned-IsConsistent before t s h = record {
  queued =
      All-map (IsQueued s.logs) (IsQueued (cleaned before t s).logs) s.global
        (λ c q e. q (sym (find_pending-cleaned before c.change_table_id t c.table_name s).0 ∙ e))
        h.queued;
  apart = h.apart;
  below =
      All-map (IsBelow s.logs) (IsBelow (cleaned before t s).logs) s.global
        (λ c b. rw (find_pending-cleaned before 0 t c.table_name s).1 b) h.below;
  ids = h.ids;
}

-- Cleaning up removes no row that a listed change waits for, wherever it fails.
pub cleanup-IsConsistent :
    (fails : String → Outcome) (before : ℕ) (ts : List String) (total : ℕ) (s : StreamDb)
    → IsConsistent s
    → IsConsistent (cleanup_change_logs fails before ts total s).1
unfolding cleanup_change_logs
cleanup-IsConsistent fails before [] total s h = h
cleanup-IsConsistent fails before (t ∷ ts) total s h = by_result (fails t) _ (
    cleanup-IsConsistent fails before ts _ (cleaned before t s) (cleaned-IsConsistent before t s h))
  where
    by_result :
        (x : Outcome) (r : Result ℕ × StreamDb)
        → IsConsistent r.1
        → IsConsistent
            (let z : Result ℕ × StreamDb = elim x [ err e ↦ (err e, s) | ok _ ↦ r ] in z).1
    by_result (err e) r k = h
    by_result (ok u) r k = k

-- The row was published, and is no younger than the bound.
abbrev pub IsExpired : ℕ → LogRow → Type 0
IsExpired before r = (r.state ≡ published) × (r.created_at ≤ before)

-- The second list is the first without its expired rows, in their order.
pub data Swept (before : ℕ) : List LogRow → List LogRow → Type 0 where
  nil : Swept before [] []
  gone :
      {r : LogRow} {rs ss : List LogRow}
      → IsExpired before r
      → Swept before rs ss
      → Swept before (r ∷ rs) ss
  kept :
      {r : LogRow} {rs ss : List LogRow}
      → ¬ IsExpired before r
      → Swept before rs ss
      → Swept before (r ∷ rs) (r ∷ ss)

is_published_iff : (c : ChangeState) → (is_published c ≡ true) ↔ (c ≡ published)
is_published_iff pending = ((λ h. cc), (λ h. cc))
is_published_iff published = ((λ h. refl), (λ h. refl))
is_published_iff failed = ((λ h. cc), (λ h. cc))

Swept-delete_old : (before : ℕ) (rs : List LogRow) → Swept before rs (delete_old before rs)
unfolding delete_old keep
Swept-delete_old before [] = nil
Swept-delete_old before (r ∷ rs) = elim (Bool-cases (is_old before r)) [
  | inl e ↦ rw e (
      gone ((is_published_iff r.state).0 (ground (arith, e)), ground (arith, e))
        (Swept-delete_old before rs))
  | inr e ↦ rw e (
      kept (λ (p, q). ground (arith, e, (is_published_iff r.state).1 p, q))
        (Swept-delete_old before rs))
]

-- How many rows a list of tables has in its logs.
pub row_count : List String → StreamDb → ℕ
row_count [] s = 0
row_count (t ∷ ts) s = length (log_of s t).rows + row_count ts s

-- The tables' names differ.
abbrev pub Differ : List String → Type 0
Differ [] = Unit {0}
Differ (t ∷ ts) = All (λ u. t ≢ u) ts × Differ ts

length-keep-le : (p : LogRow → Bool) (rs : List LogRow) → length (keep p rs) ≤ length rs
unfolding keep
length-keep-le p [] = omega arith
length-keep-le p (r ∷ rs) = ground (arith, length-keep-le p rs)

log-cleaned-ne :
    (before : ℕ) (t k : String) (s : StreamDb) → t ≢ k → log_of (cleaned before t s) k ≡ log_of s k
log-cleaned-ne before t k s ne = grind (
  tests,
  log-insert t k (record (log_of s t) { rows = delete_old before (log_of s t).rows }) s.logs,
)

log-cleaned_self :
    (before : ℕ) (t : String) (s : StreamDb)
    → (log_of (cleaned before t s) t).rows ≡ delete_old before (log_of s t).rows
log-cleaned_self before t s = rw (log-insert, ≐_refl t) refl

row_count-cleaned :
    (before : ℕ) (t : String) (ts : List String) (s : StreamDb)
    → All (λ u. t ≢ u) ts
    → row_count ts (cleaned before t s) ≡ row_count ts s
unfolding row_count
row_count-cleaned before t [] s h = refl
row_count-cleaned before t (u ∷ ts) s h =
    rw (log-cleaned-ne before t u s h.0, row_count-cleaned before t ts s h.1) refl

module _ (fails : String → Outcome) (before : ℕ) (succeeds : (t : String) → fails t ≡ ok tt) where
  -- The rows that the statement for one table deletes.
  abbrev deleted : String → StreamDb → ℕ
  deleted t s = length (log_of s t).rows - length (delete_old before (log_of s t).rows)

  cleanup_step :
      (t : String) (ts : List String) (total : ℕ) (s : StreamDb)
      → cleanup_change_logs fails before (t ∷ ts) total s
        ≡ cleanup_change_logs fails before ts (total + deleted t s) (cleaned before t s)
  unfolding cleanup_change_logs
  cleanup_step t ts total s = ground (arith, succeeds t)

  -- A table outside the list keeps its log.
  log-cleanup_ne :
      (ts : List String) (total : ℕ) (s : StreamDb) (k : String)
      → All (λ u. k ≢ u) ts
      → log_of (cleanup_change_logs fails before ts total s).1 k ≡ log_of s k
  log-cleanup_ne [] total s k h = unfold cleanup_change_logs in refl
  log-cleanup_ne (t ∷ ts) total s k h = rw cleanup_step (
      log-cleanup_ne ts (total + deleted t s) (cleaned before t s) k h.1
      ∙ log-cleaned-ne before t k s (λ e. h.0 (sym e)))

  -- What a pass over a list of tables comes to, from a total and a database.
  abbrev Deletes : List String → ℕ → StreamDb → Result ℕ × StreamDb → Type 0
  Deletes ts total s r =
      ((n : ℕ) × (r.0 ≡ ok n) × (n + row_count ts r.1 ≡ total + row_count ts s))
      × All (λ t. (log_of r.1 t).rows ≡ delete_old before (log_of s t).rows) ts

  others :
      (t : String) (s s' : StreamDb) (us : List String)
      → All (λ u. t ≢ u) us
      → All (λ u. (log_of s' u).rows ≡ delete_old before (log_of (cleaned before t s) u).rows) us
      → All (λ u. (log_of s' u).rows ≡ delete_old before (log_of s u).rows) us
  others t s s' [] a h = tt
  others t s s' (u ∷ us) a h = (
    h.0 ∙ ap (λ (l : ChangeTable). delete_old before l.rows) (log-cleaned-ne before t u s a.0),
    others t s s' us a.1 h.1,
  )

  shorter : (rs : List LogRow) → length (delete_old before rs) ≤ length rs
  unfolding delete_old
  shorter rs = length-keep-le _ rs

  counted :
      (t : String) (ts : List String) (total n : ℕ) (s s' : StreamDb)
      → All (λ u. t ≢ u) ts
      → (log_of s' t).rows ≡ delete_old before (log_of s t).rows
      → n + row_count ts s' ≡ total + deleted t s + row_count ts (cleaned before t s)
      → n + row_count (t ∷ ts) s' ≡ total + row_count (t ∷ ts) s
  unfolding row_count
  counted t ts total n s s' d own k =
      ground (arith, row_count-cleaned before t ts s d, ap length own, shorter (log_of s t).rows)

  Deletes-step :
      (t : String) (ts : List String) (total : ℕ) (s : StreamDb) (r : Result ℕ × StreamDb)
      → All (λ u. t ≢ u) ts
      → (log_of r.1 t).rows ≡ delete_old before (log_of s t).rows
      → Deletes ts (total + deleted t s) (cleaned before t s) r
      → Deletes (t ∷ ts) total s r
  Deletes-step t ts total s r d own ((n, e, k), h) =
      ((n, e, counted t ts total n s r.1 d own k), (own, others t s r.1 ts d h))

  cleanup-Deletes :
      (ts : List String) (total : ℕ) (s : StreamDb)
      → Differ ts
      → Deletes ts total s (cleanup_change_logs fails before ts total s)
  cleanup-Deletes [] total s d = unfold cleanup_change_logs row_count in ((total, refl, refl), tt)
  cleanup-Deletes (t ∷ ts) total s d =
      subst (Deletes (t ∷ ts) total s) (sym (cleanup_step t ts total s)) (
        Deletes-step t ts total s rest d.0
          (ap (λ (l : ChangeTable). l.rows)
              (log-cleanup_ne ts (total + deleted t s) (cleaned before t s) t d.0)
            ∙ log-cleaned_self before t s)
          (cleanup-Deletes ts (total + deleted t s) (cleaned before t s) d.1))
    where
      rest : Result ℕ × StreamDb
      rest = cleanup_change_logs fails before ts (total + deleted t s) (cleaned before t s)

  -- What a pass over a list of tables comes to, from a total and a database.
  abbrev pub Exact : List String → ℕ → StreamDb → Result ℕ × StreamDb → Type 0
  Exact ts total s r =
      ((n : ℕ) × (r.0 ≡ ok n) × (n + row_count ts r.1 ≡ total + row_count ts s))
      × All (λ t. Swept before (log_of s t).rows (log_of r.1 t).rows) ts

  -- If the tables' names differ and no statement fails, the log of each listed table keeps its rows
  -- in their order, without those that are published and were made at the bound or before it, and the
  -- result is the count of the rows that went, over all tables.
  pub cleanup-Exact :
      (ts : List String) (total : ℕ) (s : StreamDb)
      → Differ ts
      → Exact ts total s (cleanup_change_logs fails before ts total s)
  cleanup-Exact ts total s d =
      let (counts, rows) = cleanup-Deletes ts total s d in
      (
        counts,
        All-map _ _ ts
            (λ t e.
              subst (Swept before (log_of s t).rows) (sym e)
                (Swept-delete_old before (log_of s t).rows))
            rows,
      )
