-- ===== src/Db/ChangeLog/Delivery.antt =====
-- Whether a change of db/change_log.go can leave the global list without having been taken.
pub mod Lost
pub mod Published
use mathlib.Core.List.{append_assoc, append-nil}
use harmonylite.Prelude.{
  All, All-map, ℕ, String, ◌≡◌, refl, sym, ◌≢◌, ◌⊎◌, inl, inr, true, some, List, [], ◌∷◌, ◌++◌,
  arith, ◌==◌, Bool-cases, Err, Outcome, Result-cases, ok, err,
}
use harmonylite.Db.ChangeLog.Invariant.{In, All-In}
use harmonylite.Db.Event.{ChangeLogEvent}
use harmonylite.Db.ChangeLog.{StreamDb, GlobalChange, ChangeLogEvent, LogRow}
use harmonylite.Db.ChangeLog.Publication.{find_pending, with_id, is_transient, offer, event_from}

-- One of the events stands for the change.
abbrev pub Has : GlobalChange → List ChangeLogEvent → Type 0
Has g [] = ⊥
Has g (e ∷ es) = ((e.table_name ≡ g.table_name) × (e.id ≡ g.change_table_id)) ⊎ Has g es

Has-left : (g : GlobalChange) (es fs : List ChangeLogEvent) → Has g es → Has g (es ++ fs)
Has-left g [] fs h = elim h [ ]
Has-left g (e ∷ es) fs (inl h) = inl h
Has-left g (e ∷ es) fs (inr h) = inr (Has-left g es fs h)

Has-right : (g : GlobalChange) (es fs : List ChangeLogEvent) → Has g fs → Has g (es ++ fs)
Has-right g [] fs h = h
Has-right g (e ∷ es) fs h = inr (Has-right g es fs h)

-- From `s` to `t` events were taken, and each change of `s` is still listed or was taken.
abbrev pub Kept : StreamDb → StreamDb → Type 0
Kept s t =
    (new : List ChangeLogEvent) × (t.sent ≡ s.sent ++ new)
    × All (λ g. In g t.global ⊎ Has g new) s.global

All-self :
    (xs : List GlobalChange) (P : GlobalChange → Type 0)
    → ((g : GlobalChange) → In g xs → P g)
    → All P xs
All-self [] P f = tt
All-self (x ∷ xs) P f = (f x (inl refl), All-self xs P (λ g i. f g (inr i)))

Kept-same :
    (s t : StreamDb) (new : List ChangeLogEvent)
    → t.global ≡ s.global
    → t.sent ≡ s.sent ++ new
    → Kept s t
Kept-same s t new eg es = (new, es, All-self s.global _ (λ g i. inl (rw eg i)))

Kept-trans : (s t u : StreamDb) → Kept s t → Kept t u → Kept s u
Kept-trans s t u (new, e, h) (new', e', h') =
    (new ++ new', rw (e', e) (append_assoc s.sent new new'), All-map _ _ s.global (λ g. later g) h)
  where
    later : (g : GlobalChange) → In g t.global ⊎ Has g new → In g u.global ⊎ Has g (new ++ new')
    later g (inr k) = inr (Has-left g new new' k)
    later g (inl i) = elim (All-In _ g t.global h' i) [
      | inl j ↦ inl j
      | inr k ↦ inr (Has-right g new new' k)
    ]

pub with_id-found :
    (n : ℕ) (rs : List LogRow) (r : LogRow)
    → find_pending n rs ≡ some r
    → (r.id ≡ n) × (with_id n rs ≢ [])
unfolding find_pending with_id
with_id-found n [] r h = cc
with_id-found n (x ∷ rs) r h = ground (arith, with_id-found n rs r)

module _ (f : ChangeLogEvent → Outcome)
    (transient : (e : ChangeLogEvent) (x : Err) → f e ≡ err x → is_transient x ≡ true) where
  offer_transient :
      (table type : String) (rs : List LogRow) (s : StreamDb) (x : Err)
      → (offer (some f) table type rs s).0 ≡ err x
      → is_transient x ≡ true
  unfolding offer
  offer_transient table type [] s x h = cc
  offer_transient table type (r ∷ rs) s x h = elim (Result-cases (f (event_from s table type r))) [
    | inl (y, k) ↦ transient (event_from s table type r) x (ground arith)
    | inr (_, k) ↦
        offer_transient table type rs (record s { sent = s.sent ++ event_from s table type r ∷ [] })
          x (ground arith)
  ]

-- The events that an offer adds, and that the change is among them if the offer succeeds.
abbrev Adds : GlobalChange → List LogRow → StreamDb → Outcome × StreamDb → Type 0
Adds c rs s (x, t) =
    (new : List ChangeLogEvent) × (t.sent ≡ s.sent ++ new) × (x ≡ ok tt → rs ≢ [] → Has c new)

module _ (f : ChangeLogEvent → Outcome) (c : GlobalChange) (type : String) where
  offer-Adds :
      (rs : List LogRow) (s : StreamDb)
      → All (λ (r : LogRow). r.id ≡ c.change_table_id) rs
      → Adds c rs s (offer (some f) c.table_name type rs s)
  unfolding offer
  offer-Adds [] s h = ([], sym (append-nil s.sent), λ _ k. absurd (k refl))
  offer-Adds (r ∷ rs) s h =
      by_result (f (event_from s c.table_name type r))
        (offer-Adds rs (record s { sent = s.sent ++ event_from s c.table_name type r ∷ [] }) h.1)
    where
      by_result :
          (x : Outcome)
          → Adds c rs
              (record s { sent = s.sent ++ event_from s c.table_name type r ∷ [] })
              (offer
                (some f)
                c.table_name
                type
                rs
                (record s { sent = s.sent ++ event_from s c.table_name type r ∷ [] }))
          → Adds c (r ∷ rs) s (elim x [
            | err y ↦ (err y, s)
            | ok _ ↦
                offer
                  (some f)
                  c.table_name
                  type
                  rs
                  (record s { sent = s.sent ++ event_from s c.table_name type r ∷ [] })
          ])
      by_result (err y) k = ([], sym (append-nil s.sent), λ q. cc)
      by_result (ok u) (new, e, k) = (
        event_from s c.table_name type r ∷ new,
        rw e (append_assoc s.sent (event_from s c.table_name type r ∷ []) new),
        λ _ _. inl (unfold event_from in refl, unfold event_from in h.0),
      )

with_id-ids : (n : ℕ) (rs : List LogRow) → All (λ (r : LogRow). r.id ≡ n) (with_id n rs)
unfolding with_id
with_id-ids n [] = tt
with_id-ids n (r ∷ rs) = elim (Bool-cases (r.id == n)) [
  | inl e ↦ rw e (ground arith, with_id-ids n rs)
  | inr e ↦ rw e (with_id-ids n rs)
]
