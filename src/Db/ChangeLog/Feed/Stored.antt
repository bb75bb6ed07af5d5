-- ===== src/Db/ChangeLog/Feed/Stored.antt =====
-- The rows that stand for waiting events, under the statements of db/change_log.go on one table's
-- log, and how a table's feed carries over from one database to the next.
use harmonylite.Prelude.{
  All, keep, Dict, ◌≐◌, lookup, insert, ℕ, ◌≤◌, ◌<◌, String, ◌≡◌, refl, sym, subst, ◌≢◌, inl, inr,
  Bool, true, false, some, List, [], ◌∷◌, ◌++◌, arith, eq_iff, Bool-cases, string_eq, nat_eq,
}
use harmonylite.Db.Event.{ChangeLogEvent}
use harmonylite.Db.ChangeLog.{
  StreamDb, LogRow, delete_old, GlobalChange, log_of, is_published, pending, published, failed,
  ChangeState, ChangeTable, or_empty,
}
use harmonylite.Db.ChangeLog.Publication.{
  find_pending, with_id, set_published, event_from, is_pending,
}
use harmonylite.Db.ChangeLog.Invariant.{log-insert}
use harmonylite.Db.ChangeLog.Feed.{Stands, LineUp}

-- A statement on one table's log: what holds of its new log and of the others' holds of each log.
pub log-cases :
    (k t : String) (v : ChangeTable) (logs : Dict String ChangeTable) (P : ChangeTable → Type 0)
    → (k ≡ t → P v)
    → (k ≢ t → P (or_empty (lookup t logs)))
    → P (or_empty (lookup t (insert k v logs)))
log-cases k t v logs P own other =
    subst P (sym (log-insert k t v logs)) (elim (Bool-cases (k ≐ t)) [
      | inl e ↦ rw e (own ((eq_iff k t).0 e))
      | inr e ↦ rw e (other (λ h. ground (arith, (eq_iff k t).1 h)))
    ])

pub with_id-append :
    (n : ℕ) (rs ss : List LogRow) → with_id n (rs ++ ss) ≡ with_id n rs ++ with_id n ss
unfolding with_id
with_id-append n [] ss = refl
with_id-append n (r ∷ rs) ss = ground (arith, with_id-append n rs ss)

pub with_id-below :
    (n m : ℕ) (rs : List LogRow) → All (λ (r : LogRow). r.id < n) rs → n ≤ m → with_id m rs ≡ []
unfolding with_id
with_id-below n m [] h le = refl
with_id-below n m (r ∷ rs) h le = ground (arith, h.0, with_id-below n m rs h.1 le)

pub find_pending-append_some :
    (n : ℕ) (rs ss : List LogRow) (r : LogRow)
    → find_pending n rs ≡ some r
    → find_pending n (rs ++ ss) ≡ some r
unfolding find_pending
find_pending-append_some n [] ss r h = cc
find_pending-append_some n (x ∷ rs) ss r h = ground (arith, find_pending-append_some n rs ss r)

-- The one row of its id that was appended.
pub find_pending-last :
    (rs : List LogRow) (r : LogRow)
    → r.state ≡ pending
    → with_id r.id rs ≡ []
    → find_pending r.id (rs ++ r ∷ []) ≡ some r
unfolding find_pending with_id
find_pending-last [] r e h = ground arith
find_pending-last (x ∷ rs) r e h = ground (arith, find_pending-last rs r e)

pub with_id-set_published :
    (n m : ℕ) (rs : List LogRow) → n ≢ m → with_id n (set_published m rs) ≡ with_id n rs
unfolding with_id set_published
with_id-set_published n m [] h = refl
with_id-set_published n m (r ∷ rs) h = ground (arith, with_id-set_published n m rs h)

pub ids-set_published :
    (n m : ℕ) (rs : List LogRow)
    → All (λ (r : LogRow). r.id < n) rs
    → All (λ (r : LogRow). r.id < n) (set_published m rs)
unfolding set_published
ids-set_published n m [] h = tt
ids-set_published n m (r ∷ rs) h = (ground (arith, h.0), ids-set_published n m rs h.1)

pub All-keep :
    (P : LogRow → Type 0) (p : LogRow → Bool) (rs : List LogRow) → All P rs → All P (keep p rs)
unfolding keep
All-keep P p [] h = tt
All-keep P p (r ∷ rs) h = elim (Bool-cases (p r)) [
  | inl e ↦ rw e (h.0, All-keep P p rs h.1)
  | inr e ↦ rw e (All-keep P p rs h.1)
]

with_id-keep :
    (n : ℕ) (p : LogRow → Bool) (rs : List LogRow) → with_id n (keep p rs) ≡ keep p (with_id n rs)
unfolding with_id keep
with_id-keep n p [] = refl
with_id-keep n p (r ∷ rs) = ground (arith, with_id-keep n p rs)

find_pending-state :
    (n : ℕ) (rs : List LogRow) (r : LogRow) → find_pending n rs ≡ some r → is_pending r.state ≡ true
unfolding find_pending
find_pending-state n [] r h = cc
find_pending-state n (x ∷ rs) r h = ground (arith, find_pending-state n rs r)

pending_stays : (c : ChangeState) → is_pending c ≡ true → is_published c ≡ false
pending_stays pending h = refl
pending_stays published h = absurd (ground arith)
pending_stays failed h = refl

-- A clean-up leaves the row of a waiting event.
pub with_id-delete_old :
    (n before : ℕ) (rs : List LogRow) (r : LogRow)
    → find_pending n rs ≡ some r
    → with_id n rs ≡ r ∷ []
    → with_id n (delete_old before rs) ≡ r ∷ []
unfolding delete_old
with_id-delete_old n before rs r f w =
    let waits = pending_stays r.state (find_pending-state n rs r f) in
    rw (with_id-keep, w) (unfold keep in rw waits refl)

-- Two databases with the same columns and hash, where the row of the change is the same.
pub Stands-to :
    (s t : StreamDb) (c : GlobalChange) (e : ChangeLogEvent)
    → t.watch_tables_schema ≡ s.watch_tables_schema
    → t.schema_hash ≡ s.schema_hash
    → ((r : LogRow)
        → find_pending c.change_table_id (log_of s c.table_name).rows ≡ some r
        → with_id c.change_table_id (log_of s c.table_name).rows ≡ r ∷ []
        → (find_pending c.change_table_id (log_of t c.table_name).rows ≡ some r)
          × (with_id c.change_table_id (log_of t c.table_name).rows ≡ r ∷ []))
    → Stands s c e
    → Stands t c e
unfolding event_from
Stands-to s t c e ew eh same (r, f, w, k) = let (f', w') = same r f w in (r, f', w', rw (ew, eh) k)

pub LineUp-map :
    (s t : StreamDb) (P : GlobalChange → Type 0)
    → ((c : GlobalChange) (e : ChangeLogEvent) → P c → Stands s c e → Stands t c e)
    → (cs : List GlobalChange) (es : List ChangeLogEvent) → All P cs
    → LineUp s cs es
    → LineUp t cs es
LineUp-map s t P f [] [] p h = tt
LineUp-map s t P f [] (e ∷ es) p h = h
LineUp-map s t P f (c ∷ cs) [] p h = h
LineUp-map s t P f (c ∷ cs) (e ∷ es) p h = (f c e p.0 h.0, LineUp-map s t P f cs es p.1 h.1)

pub LineUp-append :
    (s : StreamDb) (cs : List GlobalChange) (es : List ChangeLogEvent) (c : GlobalChange)
    (e : ChangeLogEvent)
    → LineUp s cs es
    → Stands s c e
    → LineUp s (cs ++ c ∷ []) (es ++ e ∷ [])
LineUp-append s [] [] c e h k = (k, tt)
LineUp-append s [] (x ∷ es) c e h k = absurd h
LineUp-append s (d ∷ cs) [] c e h k = absurd h
LineUp-append s (d ∷ cs) (x ∷ es) c e h k = (h.0, LineUp-append s cs es c e h.1 k)
