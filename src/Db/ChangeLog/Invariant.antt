-- ===== src/Db/ChangeLog/Invariant.antt =====
-- What holds of the change tables of db/change_log.go between two operations: each change of the
-- global list has its pending row in its table's log.
pub mod Capture
pub mod Marked
pub mod Publish
use harmonylite.Prelude.{
  All, All-map, entries, Dict, ◌≐◌, lookup, insert, ℕ, ◌<◌, String, ◌≡◌, sym, ap, ◌∙◌, subst, ◌≢◌,
  ◌⊎◌, inl, inr, none, List, [], ◌∷◌, arith, ◌==◌, if◌then◌else◌, Bool-cases, string_eq, nat_eq,
}
use harmonylite.Db.ChangeLog.{GlobalChange, ChangeTable, StreamDb, or_empty}
use harmonylite.Db.ChangeLog.Publication.{without, find_pending}

abbrev pub Clash : GlobalChange → GlobalChange → Type 0
Clash g h = (g.table_name ≡ h.table_name) × (g.change_table_id ≡ h.change_table_id)

-- Two changes differ in their ids, and in the rows that they stand for.
abbrev pub Distinct : GlobalChange → GlobalChange → Type 0
Distinct g h = (g.id ≢ h.id) × (¬ Clash g h)

abbrev pub Apart : List GlobalChange → Type 0
Apart [] = Unit {0}
Apart (c ∷ cs) = All (Distinct c) cs × Apart cs

abbrev pub In : GlobalChange → List GlobalChange → Type 0
In c [] = ⊥
In c (x ∷ xs) = (c ≡ x) ⊎ In c xs

-- The change's row is in its table's log, pending.
abbrev pub IsQueued : Dict String ChangeTable → GlobalChange → Type 0
IsQueued logs c = find_pending c.change_table_id (or_empty (lookup c.table_name logs)).rows ≢ none

abbrev pub IsBelow : Dict String ChangeTable → GlobalChange → Type 0
IsBelow logs c = c.change_table_id < (or_empty (lookup c.table_name logs)).next

pub record IsConsistent (s : StreamDb) : Type 0 where
  pub queued : All (IsQueued s.logs) s.global
  pub apart : Apart s.global
  pub below : All (IsBelow s.logs) s.global
  pub ids : All (λ c. c.id < s.next_global) s.global

pub IsConsistent-same :
    (s t : StreamDb)
    → t.logs ≡ s.logs
    → t.global ≡ s.global
    → t.next_global ≡ s.next_global
    → IsConsistent s
    → IsConsistent t
IsConsistent-same s t el eg en h = record {
  queued = rw (el, eg) h.queued;
  apart = rw eg h.apart;
  below = rw (el, eg) h.below;
  ids = rw (eg, en) h.ids;
}

pub log-insert :
    (k t : String) (v : ChangeTable) (logs : Dict String ChangeTable)
    → or_empty (lookup t (insert k v logs)) ≡ (if k ≐ t then v else or_empty (lookup t logs))
log-insert k t v logs = grind entries

pub All-In :
    (P : GlobalChange → Type 0) (c : GlobalChange) (xs : List GlobalChange)
    → All P xs
    → In c xs
    → P c
All-In P c [] h i = absurd i
All-In P c (x ∷ xs) h (inl e) = subst P (sym e) h.0
All-In P c (x ∷ xs) h (inr i) = All-In P c xs h.1 i

-- A change of the list clashes with no other id.
pub Apart-In :
    (c : GlobalChange) (xs : List GlobalChange)
    → Apart xs
    → In c xs
    → All (λ g. g.id ≢ c.id → ¬ Clash c g) xs
Apart-In c [] a i = tt
Apart-In c (x ∷ xs) a (inl e) = (
  λ ne k. ne (ap (λ (g : GlobalChange). g.id) (sym e)),
  All-map (Distinct x) (λ g. g.id ≢ c.id → ¬ Clash c g) xs (λ g d ne. rw e d.1) a.0,
)
Apart-In c (x ∷ xs) a (inr i) =
    let d = All-In (Distinct x) c xs a.0 i in (λ ne k. d.1 (sym k.0, sym k.1), Apart-In c xs a.1 i)

pub All-without :
    (P Q : GlobalChange → Type 0) (n : ℕ) (xs : List GlobalChange)
    → ((g : GlobalChange) → P g → g.id ≢ n → Q g)
    → All P xs
    → All Q (without n xs)
unfolding without
All-without P Q n [] f h = tt
All-without P Q n (x ∷ xs) f h = elim (Bool-cases (x.id == n)) [
  | inl e ↦ rw e (All-without P Q n xs f h.1)
  | inr e ↦ rw e (f x h.0 (ground arith), All-without P Q n xs f h.1)
]

pub Apart-without : (n : ℕ) (xs : List GlobalChange) → Apart xs → Apart (without n xs)
unfolding without
Apart-without n [] a = tt
Apart-without n (x ∷ xs) a = elim (Bool-cases (x.id == n)) [
  | inl e ↦ rw e (Apart-without n xs a.1)
  | inr e ↦
      rw e (All-without (Distinct x) (Distinct x) n xs (λ g d _. d) a.0, Apart-without n xs a.1)
]

pub In-without :
    (c : GlobalChange) (n : ℕ) (xs : List GlobalChange) → c.id ≢ n → In c xs → In c (without n xs)
unfolding without
In-without c n [] ne i = elim i [ ]
In-without c n (x ∷ xs) ne (inl e) = elim (Bool-cases (x.id == n)) [
  | inl h ↦ absurd (ne (ap (λ (g : GlobalChange). g.id) e ∙ ground arith))
  | inr h ↦ rw h (inl e)
]
In-without c n (x ∷ xs) ne (inr i) = elim (Bool-cases (x.id == n)) [
  | inl h ↦ rw h (In-without c n xs ne i)
  | inr h ↦ rw h (inr (In-without c n xs ne i))
]

pub All-both :
    (P Q : GlobalChange → Type 0) (xs : List GlobalChange)
    → All P xs
    → All Q xs
    → All (λ g. P g × Q g) xs
All-both P Q [] p q = tt
All-both P Q (x ∷ xs) p q = ((p.0, q.0), All-both P Q xs p.1 q.1)
