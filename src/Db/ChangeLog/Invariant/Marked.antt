-- ===== src/Db/ChangeLog/Invariant/Marked.antt =====
-- Marking a change as published (db/change_log.go) and the consistency of the change tables.
use harmonylite.Prelude.{
  ◌≐◌, ℕ, ◌<◌, ◌≡◌, refl, sym, ◌≢◌, inl, inr, List, [], ◌∷◌, arith, eq_iff, Bool-cases, string_eq,
  nat_eq,
}
use harmonylite.Db.ChangeLog.Invariant.{
  Clash, IsBelow, In, IsQueued, log-insert, IsConsistent, All-without, All-both, Apart-In,
  Apart-without,
}
use harmonylite.Db.ChangeLog.{GlobalChange, LogRow, StreamDb, log_of}
use harmonylite.Db.ChangeLog.Publication.{find_pending, set_published, marked}

pub find_pending-set_published :
    (n m : ℕ) (rs : List LogRow) → n ≢ m → find_pending n (set_published m rs) ≡ find_pending n rs
unfolding find_pending set_published
find_pending-set_published n m [] h = refl
find_pending-set_published n m (r ∷ rs) h = ground (arith, find_pending-set_published n m rs h)

module _ (c : GlobalChange) (s : StreamDb) where
  marked-IsQueued :
      (g : GlobalChange) → ¬ Clash c g → IsQueued s.logs g → IsQueued (marked c s).logs g
  unfolding marked
  marked-IsQueued g apart h = rw log-insert (elim (Bool-cases (c.table_name ≐ g.table_name)) [
    | inl e ↦
        let same = (eq_iff c.table_name g.table_name).0 e in
        rw e (
          rw
            (find_pending-set_published g.change_table_id c.change_table_id
              (log_of s c.table_name).rows (λ k. apart (same, sym k)))
            (rw same h))
    | inr e ↦ rw e h
  ])

  marked-IsBelow : (g : GlobalChange) → IsBelow s.logs g → IsBelow (marked c s).logs g
  unfolding marked
  marked-IsBelow g h = rw log-insert (elim (Bool-cases (c.table_name ≐ g.table_name)) [
    | inl e ↦ rw (e, (eq_iff c.table_name g.table_name).0 e) h
    | inr e ↦ rw e h
  ])

  pub marked-IsConsistent : In c s.global → IsConsistent s → IsConsistent (marked c s)
  unfolding marked
  marked-IsConsistent i h = record {
    queued =
        All-without (λ g. (g.id ≢ c.id → ¬ Clash c g) × IsQueued s.logs g)
          (IsQueued (marked c s).logs) c.id s.global (λ g p ne. marked-IsQueued g (p.0 ne) p.1)
          (All-both _ (IsQueued s.logs) s.global (Apart-In c s.global h.apart i) h.queued);
    apart = Apart-without c.id s.global h.apart;
    below =
        All-without (IsBelow s.logs) (IsBelow (marked c s).logs) c.id s.global
          (λ g b _. marked-IsBelow g b) h.below;
    ids = All-without _ (λ g. g.id < s.next_global) c.id s.global (λ g b _. b) h.ids;
  }
