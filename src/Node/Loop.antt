-- ===== src/Node/Loop.antt =====
-- The main loop of harmonylite.go, from the start of its tickers. What comes from a ticker or a
-- channel is an event. `published` stands for the snapshot that a publication starts in its own
-- goroutine (logstream/replicator.go), which shares the time of the last snapshot.
use harmonylite.Prelude.{
  ℕ, ◌+◌, ◌-◌, ◌≤◌, ◌≡◌, Bool, true, false, ◌&&◌, Option, none, some, List, [], ◌∷◌, ◌++◌, leb,
  if◌then◌else◌, Outcome, ok, err,
}
use harmonylite.Logstream.Replicator.Saving.{
  Saving, save_snapshot, force_save_snapshot, is_snapshot_leader,
}

pub data Event : Type 0 where
  terminated : Outcome → Event
  cleanup_tick : ℕ → Event
  -- The time of the tick, and the saving if one starts.
  snapshot_tick : ℕ → Saving → Event
  published sleep_timeout : Saving → Event

pub data Ending : Type 0 where
  panic slept : Ending

pub record LoopConfig : Type 0 where
  pub snapshot_enable : Bool
  pub publish : Bool
  pub snapshot_interval : ℕ
  pub cleanup_interval : ℕ

-- A snapshot that was saved: when, and on which tick, if one of the timer led to it.
pub record Saved : Type 0 where
  pub at : ℕ
  pub tick : Option ℕ

-- The time of the last snapshot (0 is the zero time), and what has happened: the snapshots that were
-- saved, the newest first, and the bounds of the clean-ups.
pub record Loop : Type 0 where
  pub last_snapshot : ℕ
  pub saves : List Saved
  pub cleaned : List ℕ
  pub is_canceled : Bool
  pub ended : Option Ending

abbrev pub new_loop : Loop
new_loop = record { last_snapshot = 0; saves = []; cleaned = []; is_canceled = false; ended = none }

abbrev pub saved_at : Option ℕ → Loop → Loop
saved_at none l = l
saved_at (some t) l = record l {
  last_snapshot = t;
  saves = (record { at = t; tick = none }) ∷ l.saves;
}

abbrev pub timed_at : ℕ → Option ℕ → Loop → Loop
timed_at now none l = l
timed_at now (some t) l = record l {
  last_snapshot = t;
  saves = (record { at = t; tick = some now }) ∷ l.saves;
}

module _ (config : LoopConfig) where
  -- `time.Now().Sub(lastSnapshotTime) >= snapshotInterval`
  unfoldable pub on_snapshot_tick : ℕ → Saving → Loop → Loop
  on_snapshot_tick now io l =
      if config.snapshot_enable
        && config.publish
        && leb config.snapshot_interval (now - l.last_snapshot)
      then timed_at now (save_snapshot io) l
      else l

  unfoldable pub on_sleep : Saving → Loop → Loop
  on_sleep io l =
      let l' = record l { is_canceled = true; ended = some slept } in
      if config.snapshot_enable && config.publish && is_snapshot_leader io.leader
      then saved_at (force_save_snapshot io) l'
      else l'

  -- One turn of the loop's `select`.
  unfoldable pub handle : Event → Loop → Loop
  unfolding on_snapshot_tick on_sleep
  handle (terminated (ok _)) l = l
  handle (terminated (err e)) l = record l { ended = some panic }
  handle (cleanup_tick t) l = record l { cleaned = l.cleaned ++ (t - config.cleanup_interval) ∷ [] }
  handle (snapshot_tick now io) l = on_snapshot_tick now io l
  handle (published io) l = saved_at (save_snapshot io) l
  handle (sleep_timeout io) l = on_sleep io l

  unfoldable pub run : List Event → Loop → Loop
  unfolding handle
  run [] l = l
  run (e ∷ es) l = let rest = run es (handle e l) in elim l.ended [ none ↦ rest | some x ↦ l ]

  -- The time of the newest snapshot.
  abbrev pub newest : List Saved → ℕ
  newest [] = 0
  newest (x ∷ xs) = x.at

  -- Each snapshot of the timer was on a tick that is at least the interval after the snapshot before it.
  abbrev pub IsDue : List Saved → Type 0
  IsDue [] = Unit {0}
  IsDue (x ∷ xs) =
      (elim x.tick [ none ↦ Unit | some now ↦ newest xs + config.snapshot_interval ≤ now ])
      × IsDue xs

  -- The time that the replicator holds is that of the newest snapshot.
  record IsTrue (l : Loop) : Type 0 where
    last : l.last_snapshot ≡ newest l.saves
    due : IsDue l.saves
