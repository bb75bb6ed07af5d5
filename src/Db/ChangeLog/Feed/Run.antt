-- ===== src/Db/ChangeLog/Feed/Run.antt =====
-- Sequences of changes, publications and clean-ups of db/change_log.go, and the feed.
use mathlib.Core.List.{append_assoc, append-nil}
use harmonylite.Prelude.{
  length, replicate, Dict, lookup, ℕ, zero, suc, ◌-◌, ◌*◌, ◌≤◌, String, ◌≡◌, refl, sym, ap, ◌∙◌,
  subst, List, [], ◌∷◌, ◌++◌, arith, Outcome, ok, string_eq, nat_eq,
}
use harmonylite.Db.Event.{ChangeLogEvent, ColumnInfo}
use harmonylite.Db.ChangeLog.{StreamDb, GlobalChange, columns_of}
use harmonylite.Db.ChangeLog.Feed.{
  Feed, Implements, Op, feed_step, publication, change, cleanup, pass, step, run, feed_run, LineUp,
}
use harmonylite.Db.ChangeLog.Feed.Captured.{change-Implements, cleanup-Implements}
use harmonylite.Db.ChangeLog.Feed.Published.{publication-Implements}

-- A database without changes, and its feed.
abbrev pub new_db : Dict String (List ColumnInfo) → String → StreamDb
new_db schema hash = record {
  logs = [];
  global = [];
  next_global = 1;
  watch_tables_schema = schema;
  schema_hash = hash;
  sent = [];
}

abbrev pub new_feed : Feed
new_feed = record { waiting = []; taken = []; next = λ _. 1 }

new_db-Implements :
    (schema : Dict String (List ColumnInfo)) (hash : String)
    → Implements (columns_of (new_db schema hash)) hash (new_db schema hash) new_feed
unfolding lookup
new_db-Implements schema hash = record {
  consistent = record { queued = tt; apart = tt; below = tt; ids = tt };
  fresh = λ t. tt;
  waiting = tt;
  taken = refl;
  next = λ t. refl;
  columns_same = λ t. refl;
  hash_same = refl;
}

module _ (columns : String → List ColumnInfo) (hash : String) where
  step-Implements :
      (op : Op) (s : StreamDb) (q : Feed)
      → Implements columns hash s q
      → Implements columns hash (step op s) (feed_step columns hash op q)
  unfolding step
  step-Implements (change own type table row now) s q h =
      change-Implements columns hash own type table row now s q h
  step-Implements (publication n f) s q h = publication-Implements columns hash n f s q h
  step-Implements (cleanup fails before tables) s q h =
      unfold feed_step in cleanup-Implements columns hash fails before tables 0 s q h

  pub run-Implements :
      (ops : List Op) (s : StreamDb) (q : Feed)
      → Implements columns hash s q
      → Implements columns hash (run ops s) (feed_run columns hash ops q)
  unfolding run feed_run
  run-Implements [] s q h = h
  run-Implements (op ∷ ops) s q h =
      run-Implements ops (step op s) (feed_step columns hash op q) (step-Implements op s q h)

-- From a database without changes, any sequence of changes, publications (whose statements
-- succeed, with any results of `OnChange`) and clean-ups is one of the ordered feed: the changes
-- that applications make wait as events in their order, ids counted by table, those that
-- HarmonyLite makes do not; each publication hands over events from the front until a transient
-- error, and drops those that another error refuses; what `OnChange` has taken is what the feed
-- has handed over.
pub run_refines :
    (schema : Dict String (List ColumnInfo)) (hash : String) (ops : List Op)
    → Implements
        (columns_of (new_db schema hash))
        hash
        (run ops (new_db schema hash))
        (feed_run (columns_of (new_db schema hash)) hash ops new_feed)
run_refines schema hash ops =
    run-Implements (columns_of (new_db schema hash)) hash ops (new_db schema hash) new_feed
      (new_db-Implements schema hash)

abbrev pub accept : ChangeLogEvent → Outcome
accept e = ok tt

-- What at most `n` offers come to when each is taken.
pass-accept :
    (n : ℕ) (es done : List ChangeLogEvent)
    → ((pass accept n es done).1 ++ (pass accept n es done).0 ≡ done ++ es)
      × (length (pass accept n es done).0 ≡ length es - n)
unfolding pass
pass-accept zero es done = (refl, omega arith)
pass-accept (suc n) [] done = (refl, omega arith)
pass-accept (suc n) (e ∷ es) done =
    let (h, l) = pass-accept n es (done ++ e ∷ []) in
    (h ∙ append_assoc done (e ∷ []) es, omega arith)

abbrev pub publications : ℕ → ℕ → List Op
publications k n = replicate k (publication n accept)

module _ (columns : String → List ColumnInfo) (hash : String) (n : ℕ) where
  length-zero : (es : List ChangeLogEvent) → length es ≤ 0 → es ≡ []
  length-zero [] h = refl
  length-zero (e ∷ es) h = absurd (omega arith)

  feed_run-publications :
      (k : ℕ) (q : Feed)
      → length q.waiting ≤ k * n
      → ((feed_run columns hash (publications k n) q).waiting ≡ [])
        × ((feed_run columns hash (publications k n) q).taken ≡ q.taken ++ q.waiting)
  unfolding feed_run feed_step
  feed_run-publications zero q le =
      let none_left = length-zero q.waiting (omega arith) in
      (none_left, rw none_left (sym (append-nil q.taken)))
  feed_run-publications (suc k) q le =
      let (kept, shorter) = pass-accept n q.waiting q.taken in
      let (w, t) =
        feed_run-publications k (feed_step columns hash (publication n accept) q)
          (omega (arith, shorter)) in
      (w, t ∙ kept)

  length-LineUp :
      (s : StreamDb) (cs : List GlobalChange) (es : List ChangeLogEvent)
      → LineUp s cs es
      → length cs ≡ length es
  length-LineUp s [] [] h = refl
  length-LineUp s [] (e ∷ es) h = absurd h
  length-LineUp s (c ∷ cs) [] h = absurd h
  length-LineUp s (c ∷ cs) (e ∷ es) h = ap suc (length-LineUp s cs es h.1)

  -- In a database that holds a feed, if each statement succeeds and each event is taken, `k`
  -- publications of at most `n` changes each end the change log whenever it lists at most `k * n`
  -- changes: its list is empty, and the waiting events were taken, in order, after those before.
  pub publications_drain :
      (k : ℕ) (s : StreamDb) (q : Feed)
      → Implements columns hash s q
      → length s.global ≤ k * n
      → ((run (publications k n) s).global ≡ [])
        × ((run (publications k n) s).sent ≡ q.taken ++ q.waiting)
  publications_drain k s q h le =
      let (w, t) =
        feed_run-publications k q (rw (length-LineUp s s.global q.waiting h.waiting) at le) in
      let r = run-Implements columns hash (publications k n) s q h in
      (
        empty_list (run (publications k n) s).global
            (subst (LineUp _ (run (publications k n) s).global) w r.waiting),
        r.taken ∙ t,
      )
    where
      empty_list : (cs : List GlobalChange) → LineUp (run (publications k n) s) cs [] → cs ≡ []
      empty_list [] l = refl
      empty_list (c ∷ cs) l = absurd l
