-- ===== src/Db/ChangeLog/Delivery/Lost.antt =====
-- A change that `OnChange` refuses for good (db/change_log.go, `publishChangeLog`).
use harmonylite.Prelude.{
  All, ℕ, ◌≡◌, refl, ◌≢◌, inl, inr, false, some, List, [], ◌∷◌, arith, ◌==◌, Bool-cases, Err,
  Outcome, ok, err,
}
use harmonylite.Db.Event.{ChangeLogEvent}
use harmonylite.Db.ChangeLog.{StreamDb, GlobalChange, ChangeLogEvent, LogRow, log_of}
use harmonylite.Db.ChangeLog.Publication.{
  without, publish_one, Env, find_pending, with_id, event_from, is_transient, go,
  consume_change_logs, offer, marked, on_found, on_consumed, mark_change_published,
}

without_ids : (n : ℕ) (xs : List GlobalChange) → All (λ c. c.id ≢ n) (without n xs)
unfolding without
without_ids n [] = tt
without_ids n (x ∷ xs) = elim (Bool-cases (x.id == n)) [
  | inl e ↦ rw e (without_ids n xs)
  | inr e ↦ rw e (ground arith, without_ids n xs)
]

-- If the change's row alone is found, the statements succeed, and `OnChange` fails on its event
-- by an error that is neither `ErrLogNotReadyToPublish` nor `Canceled`, the change leaves the
-- global list as if it had been published, and its event is not among those taken.
pub refused_is_lost :
    (env : Env) (f : ChangeLogEvent → Outcome) (c : GlobalChange) (s : StreamDb) (r : LogRow)
    (x : Err)
    → env.entry c.id ≡ ok tt
    → env.fetch c.id ≡ ok tt
    → env.mark c.id ≡ ok tt
    → env.on_change ≡ some f
    → find_pending c.change_table_id (log_of s c.table_name).rows ≡ some r
    → with_id r.id (log_of s c.table_name).rows ≡ r ∷ []
    → f (event_from s c.table_name r.type r) ≡ err x
    → is_transient x ≡ false
    → (t : StreamDb) × (publish_one env c s ≡ go t)
      × All (λ g. g.id ≢ c.id) t.global
      × (t.sent ≡ s.sent)
unfolding publish_one
refused_is_lost env f c s r x he hf hm hc found one refused final =
    (marked c s, step, unfold marked in without_ids c.id s.global, unfold marked in refl)
  where
    offered : consume_change_logs env c r s ≡ (err x, s)
    offered = unfold consume_change_logs offer in ground arith

    step : publish_one env c s ≡ go (marked c s)
    step = unfold publish_one on_found on_consumed mark_change_published in ground (arith, offered)
