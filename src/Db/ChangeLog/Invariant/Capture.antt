-- ===== src/Db/ChangeLog/Invariant/Capture.antt =====
-- The triggers of db/table_change_log_script.tmpl and the consistency of the change tables.
use harmonylite.Prelude.{
  All, All-append, All-map, ◌≐◌, ≐_refl, ℕ, suc, ◌<◌, String, ◌≡◌, refl, ◌≢◌, inl, inr, Bool, true,
  false, ◌&&◌, none, List, [], ◌∷◌, ◌++◌, arith, eq_iff, ◌==◌, Bool-cases, string_eq, nat_eq,
}
use harmonylite.Db.ChangeLog.Invariant.{
  Apart, Distinct, IsQueued, IsBelow, IsConsistent, log-insert, All-both,
}
use harmonylite.Db.Event.{Row}
use harmonylite.Db.ChangeLog.{
  StreamDb, GlobalChange, Row, LogRow, record_change, pending, log_of, capture,
}
use harmonylite.Db.ChangeLog.Publication.{find_pending, is_pending}

find_pending-append :
    (n : ℕ) (rs ss : List LogRow) → find_pending n rs ≢ none → find_pending n (rs ++ ss) ≢ none
unfolding find_pending
find_pending-append n [] ss h = absurd (h refl)
find_pending-append n (r ∷ rs) ss h = elim (Bool-cases (is_pending r.state && r.id == n)) [
  | inl e ↦ rw e (λ k. cc)
  | inr e ↦ rw e (find_pending-append n rs ss (rw e at h))
]

find_pending-new :
    (rs : List LogRow) (r : LogRow) → r.state ≡ pending → find_pending r.id (rs ++ r ∷ []) ≢ none
unfolding find_pending
find_pending-new [] r h = ground arith
find_pending-new (x ∷ rs) r h = ground (arith, find_pending-new rs r h)

All-In-new :
    (P Q : GlobalChange → Type 0) (xs : List GlobalChange) (c : GlobalChange)
    → ((g : GlobalChange) → P g → Q g)
    → Q c
    → All P xs
    → All Q (xs ++ c ∷ [])
All-In-new P Q xs c f q h = All-append Q xs (c ∷ []) (All-map P Q xs f h) (q, tt)

Apart-append :
    (xs : List GlobalChange) (c : GlobalChange)
    → Apart xs
    → All (λ g. Distinct g c) xs
    → Apart (xs ++ c ∷ [])
Apart-append [] c a h = (tt, tt)
Apart-append (x ∷ xs) c a h =
    (All-append (Distinct x) xs (c ∷ []) a.0 (h.0, tt), Apart-append xs c a.1 h.1)

module _ (type table : String) (row : Row) (now : ℕ) (s : StreamDb) where
  captured-IsQueued :
      (g : GlobalChange) → IsQueued s.logs g → IsQueued (record_change type table row now s).logs g
  unfolding record_change
  captured-IsQueued g h = rw log-insert (elim (Bool-cases (table ≐ g.table_name)) [
    | inl e ↦ rw e (
        find_pending-append g.change_table_id (log_of s table).rows _
          (rw (← (eq_iff table g.table_name).0 e) at h))
    | inr e ↦ rw e h
  ])

  captured-IsBelow :
      (g : GlobalChange) → IsBelow s.logs g → IsBelow (record_change type table row now s).logs g
  unfolding record_change
  captured-IsBelow g h = rw log-insert (elim (Bool-cases (table ≐ g.table_name)) [
    | inl e ↦
        let below : g.change_table_id < (log_of s table).next =
          rw (← (eq_iff table g.table_name).0 e) at h in
        rw e (omega arith)
    | inr e ↦ rw e h
  ])

  abbrev pub new_change : GlobalChange
  new_change = record {
    id = s.next_global;
    change_table_id = (log_of s table).next;
    table_name = table;
  }

  new_change-IsQueued : IsQueued (record_change type table row now s).logs new_change
  unfolding record_change
  new_change-IsQueued =
      rw (log-insert, ≐_refl table) (find_pending-new (log_of s table).rows _ refl)

  new_change-IsBelow : IsBelow (record_change type table row now s).logs new_change
  unfolding record_change
  new_change-IsBelow = rw (log-insert, ≐_refl table) (omega arith)

  Distinct-new_change :
      (g : GlobalChange) → IsBelow s.logs g × (g.id < s.next_global) → Distinct g new_change
  Distinct-new_change g (below, id) = (
    λ e. omega arith,
    λ k.
        let b : g.change_table_id < (log_of s table).next = rw k.0 at below in
        absurd (omega (arith, k.1)),
  )

  record_change-IsConsistent : IsConsistent s → IsConsistent (record_change type table row now s)
  unfolding record_change
  record_change-IsConsistent h = record {
    queued =
        All-In-new (IsQueued s.logs) _ s.global new_change captured-IsQueued new_change-IsQueued
          h.queued;
    apart = Apart-append s.global new_change h.apart (
        All-map _ (λ g. Distinct g new_change) s.global Distinct-new_change
          (All-both (IsBelow s.logs) (λ g. g.id < s.next_global) s.global h.below h.ids));
    below =
        All-In-new (IsBelow s.logs) _ s.global new_change captured-IsBelow new_change-IsBelow
          h.below;
    ids =
        All-In-new (λ g. g.id < s.next_global) (λ g. g.id < suc s.next_global) s.global new_change
          (λ g b. omega arith) (omega arith) h.ids;
  }

-- A change keeps the tables consistent, whether the trigger records it or the connection is one of
-- HarmonyLite's own.
pub capture-IsConsistent :
    (is_own : Bool) (type table : String) (row : Row) (now : ℕ) (s : StreamDb)
    → IsConsistent s
    → IsConsistent (capture is_own type table row now s)
unfolding capture
capture-IsConsistent true type table row now s h = h
capture-IsConsistent false type table row now s h =
    record_change-IsConsistent type table row now s h
