-- ===== src/Db/ChangeLog/Invariant/Publish.antt =====
-- Publishing and cleaning up (db/change_log.go) and the consistency of the change tables.
use harmonylite.Prelude.{
  length, take, All, ℕ, zero, suc, String, ◌≡◌, refl, sym, subst, ◌≢◌, ◌⊎◌, inl, inr, Bool, true,
  false, Option, none, some, List, [], ◌∷◌, ◌++◌, arith, ltb, if◌then◌else◌, Bool-cases, Outcome,
  ok, err,
}
use harmonylite.Db.Event.{ChangeLogEvent}
use harmonylite.Db.ChangeLog.Invariant.Marked.{marked-IsConsistent}
use harmonylite.Db.ChangeLog.Invariant.{
  In, IsQueued, IsConsistent, Apart, Distinct, In-without, IsConsistent-same, All-In,
}
use harmonylite.Db.ChangeLog.{GlobalChange, LogRow, StreamDb, log_of, ChangeLogEvent}
use harmonylite.Db.ChangeLog.Publication.{
  find_pending, Env, mark_change_published, marked, consume_change_logs, offer, with_id, event_from,
  Step, on_consumed, publish_one, publish_loop, publish_change_log, go, panicked, stop,
  is_transient, Finish, after, returned, on_found,
}

-- The changes still to come, while the loop runs.
pub record IsAhead (cs : List GlobalChange) (s : StreamDb) : Type 0 where
  pub inside : All (λ c. In c s.global) cs
  pub apart : Apart cs

module _ (env : Env) where
  pub mark_cases :
      (c : GlobalChange) (s : StreamDb)
      → (mark_change_published env c s ≡ s) ⊎ (mark_change_published env c s ≡ marked c s)
  unfolding mark_change_published
  mark_cases c s = ground arith

  offer_keeps :
      (f : Option (ChangeLogEvent → Outcome)) (table type : String) (rs : List LogRow)
      (s : StreamDb)
      → ((offer f table type rs s).1.logs ≡ s.logs)
        × ((offer f table type rs s).1.global ≡ s.global)
        × ((offer f table type rs s).1.next_global ≡ s.next_global)
  unfolding offer
  offer_keeps f table type [] s = (refl, refl, refl)
  offer_keeps none table type (r ∷ rs) s = offer_keeps none table type rs s
  offer_keeps (some f) table type (r ∷ rs) s = ground (
    arith,
    offer_keeps (some f) table type rs
        (record s { sent = s.sent ++ event_from s table type r ∷ [] }),
  )

  pub consume_keeps :
      (c : GlobalChange) (entry : LogRow) (s : StreamDb)
      → ((consume_change_logs env c entry s).1.logs ≡ s.logs)
        × ((consume_change_logs env c entry s).1.global ≡ s.global)
        × ((consume_change_logs env c entry s).1.next_global ≡ s.next_global)
  unfolding consume_change_logs
  consume_keeps c entry s = ground (
    arith,
    offer_keeps env.on_change c.table_name entry.type
        (with_id entry.id (log_of s c.table_name).rows) s,
  )

  abbrev pub Holds : List GlobalChange → Step → Type 0
  Holds cs (go t) = IsConsistent t × IsAhead cs t
  Holds cs (stop f t) = IsConsistent t × (f ≢ panicked)

  mark-Holds :
      (c : GlobalChange) (cs : List GlobalChange) (s : StreamDb)
      → IsConsistent s
      → IsAhead (c ∷ cs) s
      → Holds cs (go (mark_change_published env c s))
  mark-Holds c cs s h a = elim (mark_cases c s) [
    | inl e ↦ rw e (h, record { inside = a.inside.1; apart = a.apart.1 })
    | inr e ↦ rw e (
      marked-IsConsistent c s a.inside.0 h,
      record { inside = still cs a.inside.1 a.apart.0; apart = a.apart.1 },
    )
  ]
    where
      still :
          (ds : List GlobalChange)
          → All (λ d. In d s.global) ds
          → All (Distinct c) ds
          → All (λ d. In d (marked c s).global) ds
      still [] i d = tt
      still (x ∷ ds) i d =
          (unfold marked in In-without x c.id s.global (λ e. d.0.0 (sym e)) i.0, still ds i.1 d.1)

  on_consumed-Holds :
      (c : GlobalChange) (cs : List GlobalChange) (s : StreamDb) (r : Outcome × StreamDb)
      → r.1.logs ≡ s.logs
      → r.1.global ≡ s.global
      → r.1.next_global ≡ s.next_global
      → IsConsistent s
      → IsAhead (c ∷ cs) s
      → Holds cs (on_consumed env c r)
  on_consumed-Holds c cs s (x, t) el eg en h a = by_result x
    where
      ht : IsConsistent t
      ht = IsConsistent-same s t el eg en h

      at : IsAhead (c ∷ cs) t
      at = record {
        inside = subst (λ g. All (λ d. In d g) (c ∷ cs)) (sym eg) a.inside;
        apart = a.apart;
      }

      by_result : (x : Outcome) → Holds cs (on_consumed env c (x, t))
      by_result (ok u) = unfold on_consumed in mark-Holds c cs t ht at
      by_result (err e) =
          unfold on_consumed in
          (elim (Bool-cases (is_transient e)) [
            | inl k ↦ rw k (ht, λ q. cc)
            | inr k ↦ rw k (mark-Holds c cs t ht at)
          ])

  pub publish_one-Holds :
      (c : GlobalChange) (cs : List GlobalChange) (s : StreamDb)
      → IsConsistent s
      → IsAhead (c ∷ cs) s
      → Holds cs (publish_one env c s)
  unfolding publish_one
  publish_one-Holds c cs s h a = by_entry (env.entry c.id)
    where
      by_found : (o : Option LogRow) → o ≢ none → Holds cs (on_found env c s o)
      by_found none k = absurd (k refl)
      by_found (some entry) k =
          let (el, eg, en) = consume_keeps c entry s in
          on_consumed-Holds c cs s (consume_change_logs env c entry s) el eg en h a

      by_entry :
          (x : Outcome)
          → Holds cs (elim x [
            | err _ ↦ stop returned s
            | ok _ ↦ on_found env c s (find_pending c.change_table_id (log_of s c.table_name).rows)
          ])
      by_entry (err e) = (h, λ q. cc)
      by_entry (ok _) = by_found _ (All-In (IsQueued s.logs) c s.global h.queued a.inside.0)

  publish_loop-safe :
      (cs : List GlobalChange) (s : StreamDb)
      → IsConsistent s
      → IsAhead cs s
      → IsConsistent (publish_loop env cs s).1 × ((publish_loop env cs s).0 ≢ panicked)
  unfolding publish_loop
  publish_loop-safe [] s h a = (h, λ q. cc)
  publish_loop-safe (c ∷ cs) s h a =
      on_step (publish_one env c s) (publish_one-Holds c cs s h a) (publish_loop-safe cs)
    where
      on_step :
          (x : Step)
          → Holds cs x
          → ((t : StreamDb)
              → IsConsistent t
              → IsAhead cs t
              → IsConsistent (publish_loop env cs t).1 × ((publish_loop env cs t).0 ≢ panicked))
          → IsConsistent (after x (publish_loop env cs)).1
            × ((after x (publish_loop env cs)).0 ≢ panicked)
      on_step (go t) k rec = rec t k.0 k.1
      on_step (stop f t) k rec = k

  pub take-IsAhead : (n : ℕ) (s : StreamDb) → Apart s.global → IsAhead (take n s.global) s
  take-IsAhead n s a = record { inside = inside n s.global (λ c i. i); apart = apart n s.global a }
    where
      inside :
          (n : ℕ) (xs : List GlobalChange)
          → ((c : GlobalChange) → In c xs → In c s.global)
          → All (λ c. In c s.global) (take n xs)
      inside zero xs f = tt
      inside (suc n) [] f = tt
      inside (suc n) (x ∷ xs) f = (f x (inl refl), inside n xs (λ c i. f c (inr i)))

      below :
          (c : GlobalChange) (n : ℕ) (xs : List GlobalChange)
          → All (Distinct c) xs
          → All (Distinct c) (take n xs)
      below c zero xs d = tt
      below c (suc n) [] d = tt
      below c (suc n) (x ∷ xs) d = (d.0, below c n xs d.1)

      apart : (n : ℕ) (xs : List GlobalChange) → Apart xs → Apart (take n xs)
      apart zero xs a = tt
      apart (suc n) [] a = tt
      apart (suc n) (x ∷ xs) a = (below x n xs a.0, apart n xs a.1)

  -- On consistent tables a publication never panics, whatever fails, and leaves them consistent.
  pub publish_safe :
      (s : StreamDb)
      → IsConsistent s
      → IsConsistent (publish_change_log env s).1 × ((publish_change_log env s).0 ≢ panicked)
  unfolding publish_change_log
  publish_safe s h =
      let loop =
        publish_loop-safe (take env.scan_max_changes s.global) s h
          (take-IsAhead env.scan_max_changes s h.apart) in
      by_cases env.lock_free env.count env.scan (ltb 0 (length s.global))
        (publish_loop env (take env.scan_max_changes s.global) s) loop
    where
      by_cases :
          (a : Bool) (x y : Outcome) (b : Bool) (r : Finish × StreamDb)
          → IsConsistent r.1 × (r.0 ≢ panicked)
          → let z : Finish × StreamDb =
              if a
              then elim x [
                | err _ ↦ (returned, s)
                | ok _ ↦ elim y [ err _ ↦ (returned, s) | ok _ ↦ if b then r else (returned, s) ]
              ]
              else (returned, s) in
            IsConsistent z.1 × (z.0 ≢ panicked)
      by_cases false x y b r k = (h, λ q. cc)
      by_cases true (err e) y b r k = (h, λ q. cc)
      by_cases true (ok u) (err e) b r k = (h, λ q. cc)
      by_cases true (ok u) (ok v) false r k = (h, λ q. cc)
      by_cases true (ok u) (ok v) true r k = k
