-- ===== src/Db/ChangeLog/Delivery/Published.antt =====
-- What a publication of db/change_log.go does with the changes that it lists.
use mathlib.Core.List.{append-nil}
use harmonylite.Prelude.{
  length, take, All, ℕ, ◌≡◌, refl, sym, ap, ◌∙◌, subst, ◌≢◌, ◌⊎◌, inl, inr, Bool, true, false,
  Option, none, some, List, [], ◌∷◌, ◌++◌, arith, ltb, ◌==◌, if◌then◌else◌, Bool-cases, Err,
  Outcome, ok, err,
}
use harmonylite.Db.ChangeLog.Invariant.Publish.{
  mark_cases, IsAhead, Holds, consume_keeps, take-IsAhead, publish_one-Holds,
}
use harmonylite.Db.ChangeLog.Invariant.{In, All-In, Apart, Distinct, In-without, IsConsistent}
use harmonylite.Db.Event.{ChangeLogEvent}
use harmonylite.Db.ChangeLog.{StreamDb, GlobalChange, ChangeLogEvent, LogRow, log_of}
use harmonylite.Db.ChangeLog.Publication.{
  find_pending, Env, with_id, is_transient, offer, marked, without, mark_change_published, Step,
  consume_change_logs, publish_one, publish_loop, publish_change_log, Finish, go, on_consumed,
  on_found, returned, stop, after,
}
use harmonylite.Db.ChangeLog.Delivery.{
  Has, Kept, All-self, Kept-same, Kept-trans, with_id-found, offer_transient, Adds, offer-Adds,
  with_id-ids,
}

Apart-same :
    (c g : GlobalChange) (xs : List GlobalChange)
    → Apart xs
    → In c xs
    → In g xs
    → g.id ≡ c.id
    → g ≡ c
Apart-same c g [] a i j e = elim i [ ]
Apart-same c g (x ∷ xs) a (inl i) (inl j) e = j ∙ sym i
Apart-same c g (x ∷ xs) a (inl i) (inr j) e =
    absurd ((All-In (Distinct x) g xs a.0 j).0 (ap (λ (h : GlobalChange). h.id) (sym i) ∙ sym e))
Apart-same c g (x ∷ xs) a (inr i) (inl j) e =
    absurd ((All-In (Distinct x) c xs a.0 i).0 (ap (λ (h : GlobalChange). h.id) (sym j) ∙ e))
Apart-same c g (x ∷ xs) a (inr i) (inr j) e = Apart-same c g xs a.1 i j e

-- Marking the change `c` removes it alone.
marked-Kept :
    (c : GlobalChange) (s t : StreamDb) (new : List ChangeLogEvent)
    → In c s.global
    → Apart s.global
    → t.global ≡ s.global
    → t.sent ≡ s.sent ++ new
    → Has c new
    → Kept s (marked c t)
unfolding marked
marked-Kept c s t new i a eg es h = (new, es, All-self s.global _ listed)
  where
    listed : (g : GlobalChange) → In g s.global → In g (without c.id t.global) ⊎ Has g new
    listed g j = elim (Bool-cases (g.id == c.id)) [
      | inl e ↦ inr (rw (Apart-same c g s.global a i j (ground arith)) h)
      | inr e ↦ inl (In-without g c.id t.global (ground arith) (rw eg j))
    ]

mark-Kept :
    (env : Env) (c : GlobalChange) (s t : StreamDb) (new : List ChangeLogEvent)
    → In c s.global
    → Apart s.global
    → t.global ≡ s.global
    → t.sent ≡ s.sent ++ new
    → Has c new
    → Kept s (mark_change_published env c t)
mark-Kept env c s t new i a eg es h = elim (mark_cases env c t) [
  | inl e ↦ subst (Kept s) (sym e) (Kept-same s t new eg es)
  | inr e ↦ subst (Kept s) (sym e) (marked-Kept c s t new i a eg es h)
]

-- What a step keeps.
abbrev KeptBy : StreamDb → Step → Type 0
KeptBy s (go t) = Kept s t
KeptBy s (stop f t) = Kept s t

module _ (env : Env) (f : ChangeLogEvent → Outcome) (handler : env.on_change ≡ some f)
    (transient : (e : ChangeLogEvent) (x : Err) → f e ≡ err x → is_transient x ≡ true)
    (fetches : (n : ℕ) → env.fetch n ≡ ok tt) where
  consume-offer :
      (c : GlobalChange) (entry : LogRow) (s : StreamDb)
      → consume_change_logs env c entry s
        ≡ offer (some f) c.table_name entry.type (with_id entry.id (log_of s c.table_name).rows) s
  unfolding consume_change_logs
  consume-offer c entry s = ground (arith, fetches c.id)

  consumed-KeptBy :
      (c : GlobalChange) (entry : LogRow) (s : StreamDb) (r : Outcome × StreamDb)
      → IsConsistent s
      → In c s.global
      → entry.id ≡ c.change_table_id
      → with_id entry.id (log_of s c.table_name).rows ≢ []
      → r ≡ consume_change_logs env c entry s
      → KeptBy s (on_consumed env c r)
  consumed-KeptBy c entry s (x, t) h i ide some_row e = by_result x refl
    where
      rows : List LogRow
      rows = with_id entry.id (log_of s c.table_name).rows

      offered : (x, t) ≡ offer (some f) c.table_name entry.type rows s
      offered = e ∙ consume-offer c entry s

      adds : Adds c rows s (x, t)
      adds = subst (Adds c rows s) (sym offered) (
          offer-Adds f c entry.type rows s (
            subst (λ n. All (λ (r : LogRow). r.id ≡ n) rows) ide
              (with_id-ids entry.id (log_of s c.table_name).rows)))

      same_global : t.global ≡ s.global
      same_global = ap (λ (r : Outcome × StreamDb). r.1.global) e ∙ (consume_keeps env c entry s).1

      by_result : (y : Outcome) → x ≡ y → KeptBy s (on_consumed env c (y, t))
      by_result (ok u) k =
          unfold on_consumed in
          mark-Kept env c s t adds.0 i h.apart same_global adds.1 (adds.2 k some_row)
      by_result (err z) k =
          unfold on_consumed in
          rw
            (offer_transient f transient c.table_name entry.type rows s z
              (ap (λ (r : Outcome × StreamDb). r.0) (sym offered) ∙ k))
            (Kept-same s t adds.0 same_global adds.1)

  publish_one-KeptBy :
      (c : GlobalChange) (s : StreamDb)
      → IsConsistent s
      → In c s.global
      → KeptBy s (publish_one env c s)
  unfolding publish_one
  publish_one-KeptBy c s h i = by_entry (env.entry c.id)
    where
      same : Kept s s
      same = Kept-same s s [] refl (sym (append-nil s.sent))

      by_found :
          (o : Option LogRow)
          → find_pending c.change_table_id (log_of s c.table_name).rows ≡ o
          → KeptBy s (on_found env c s o)
      by_found none k = unfold on_found in same
      by_found (some entry) k =
          let (ide, some_row) =
            with_id-found c.change_table_id (log_of s c.table_name).rows entry k in
          unfold on_found in
          consumed-KeptBy c entry s (consume_change_logs env c entry s) h i ide (rw ide some_row)
            refl

      by_entry :
          (x : Outcome)
          → KeptBy s (elim x [
            | err _ ↦ stop returned s
            | ok _ ↦ on_found env c s (find_pending c.change_table_id (log_of s c.table_name).rows)
          ])
      by_entry (err e) = same
      by_entry (ok _) = by_found _ refl

  publish_loop-Kept :
      (cs : List GlobalChange) (s : StreamDb)
      → IsConsistent s
      → IsAhead cs s
      → Kept s (publish_loop env cs s).1
  unfolding publish_loop
  publish_loop-Kept [] s h a = Kept-same s s [] refl (sym (append-nil s.sent))
  publish_loop-Kept (c ∷ cs) s h a =
      on_step (publish_one env c s) (publish_one-Holds env c cs s h a)
        (publish_one-KeptBy c s h a.inside.0) (publish_loop-Kept cs)
    where
      on_step :
          (x : Step)
          → Holds env cs x
          → KeptBy s x
          → ((t : StreamDb) → IsConsistent t → IsAhead cs t → Kept t (publish_loop env cs t).1)
          → Kept s (after x (publish_loop env cs)).1
      on_step (go t) k m rec = Kept-trans s t (publish_loop env cs t).1 m (rec t k.0 k.1)
      on_step (stop g t) k m rec = m

  -- On consistent tables, with an `OnChange` that fails only for a while (not ready, or
  -- canceled), and where rows can be fetched, no change is lost, whatever else fails: after a
  -- publication each change is still in the global list, or its event was taken.
  pub publish_keeps : (s : StreamDb) → IsConsistent s → Kept s (publish_change_log env s).1
  unfolding publish_change_log
  publish_keeps s h =
      by_cases env.lock_free env.count env.scan (ltb 0 (length s.global))
        (publish_loop env (take env.scan_max_changes s.global) s)
        (publish_loop-Kept (take env.scan_max_changes s.global) s h
          (take-IsAhead env env.scan_max_changes s h.apart))
    where
      same : Kept s s
      same = Kept-same s s [] refl (sym (append-nil s.sent))

      by_cases :
          (a : Bool) (x y : Outcome) (b : Bool) (r : Finish × StreamDb)
          → Kept s r.1
          → let z : Finish × StreamDb =
              if a
              then elim x [
                | err _ ↦ (returned, s)
                | ok _ ↦ elim y [ err _ ↦ (returned, s) | ok _ ↦ if b then r else (returned, s) ]
              ]
              else (returned, s) in
            Kept s z.1
      by_cases false x y b r k = same
      by_cases true (err e) y b r k = same
      by_cases true (ok u) (err e) b r k = same
      by_cases true (ok u) (ok v) false r k = same
      by_cases true (ok u) (ok v) true r k = k
