-- ===== src/Node/Start/Ready.antt =====
-- When `main` of harmonylite.go starts a listener.
use harmonylite.Prelude.{
  All, ℕ, ◌≤◌, ◌<◌, ◌≡◌, Bool, true, false, ◌&&◌, ◌||◌, List, [], ◌∷◌, ◌++◌, arith, if◌then◌else◌,
  Outcome, ok,
}
use harmonylite.Node.Start.{
  Action, Call, Finish, Options, call, only_if, listeners, watch_calls, lead_calls, serve,
  replicator_calls, status_calls, main_calls, make_calls, end_of, main, check_file, open_stream_db,
  listen, remove_cdc, print_status, new_storage, new_replicator, start_health, force_save,
  restore_snapshot, start_leader, list_tables, install_cdc, publish_schema_state, returns, panics,
  goes_on,
}
use harmonylite.Node.Start.Listening.{
  Listens, Listens-InOrder, InOrder, Extends, Listens-call, Listens-only_if, Listens-listeners,
  must_pass, no_listener,
}

-- What must have succeeded before a listener, in this order.
abbrev pub required : Options → List Action
required o =
    (if o.snapshot_enable && o.replicate then restore_snapshot ∷ [] else [])
    ++ list_tables ∷ install_cdc ∷ []

module _ (result : Action → Outcome) (k : ℕ) (end : Finish) where
  -- A listener's shard is one of the configured ones, and in the trace the required actions come before
  -- the listener, in their order, and each of them succeeded.
  abbrev pub IsReady : Options → List Action → Type 0
  IsReady o trace =
      ((0 < k) × (k ≤ o.shards))
      × All (λ a. result a ≡ ok tt) (required o)
      × InOrder (required o ++ listen k ∷ []) trace

  IsReady-Extends :
      (o : Options) (later trace : List Action)
      → Extends later trace
      → IsReady o later
      → IsReady o trace
  IsReady-Extends o later trace go (bounds, done, order) =
      (bounds, done, go (required o ++ listen k ∷ []) order)

  -- The part of a node that watches.
  abbrev Watches : Options → List Action → Type 0
  Watches o trace =
      ((0 < k) × (k ≤ o.shards))
      × (result list_tables ≡ ok tt)
      × (result install_cdc ≡ ok tt)
      × InOrder (list_tables ∷ install_cdc ∷ listen k ∷ []) trace

  watch_calls-Watches :
      (o : Options)
      → Listens k (make_calls result (watch_calls o) end).0
      → Watches o (make_calls result (watch_calls o) end).0
  unfolding watch_calls
  watch_calls-Watches o h =
      let publish =
        only_if o.has_hash (call publish_schema_state goes_on) ++ listeners 0 o.shards in
      let install = call install_cdc returns ∷ publish in
      let (listed, h1, go1) =
        Listens-call result k end (call list_tables returns) install (λ e. cc) h in
      let (installed, h2, go2) =
        Listens-call result k end (call install_cdc returns) publish (λ e. cc) h1 in
      let (h3, go3) =
        Listens-only_if result k end o.has_hash (call publish_schema_state goes_on)
          (listeners 0 o.shards) (λ e. cc) h2 in
      let (above, within) = Listens-listeners result k end o.shards 0 h3 in
      (
        (above, omega (arith, within)),
        must_pass result k end (call list_tables returns) (λ e. cc) listed,
        must_pass result k end (call install_cdc returns) (λ e. cc) installed,
        go1.1 (install_cdc ∷ listen k ∷ []) (
            go2.1 (listen k ∷ []) (
              go3 (listen k ∷ []) (
                Listens-InOrder result k end (make_calls result (listeners 0 o.shards) end).0 h3))),
      )

  lead_calls-Watches :
      (o : Options)
      → Listens k (make_calls result (lead_calls o) end).0
      → Watches o (make_calls result (lead_calls o) end).0
  unfolding lead_calls
  lead_calls-Watches o h =
      let (h1, go) =
        Listens-only_if result k end (o.snapshot_enable && o.publish) (call start_leader goes_on)
          (watch_calls o) (λ e. cc) h in
      let (bounds, listed, installed, order) = watch_calls-Watches o h1 in
      (bounds, listed, installed, go (list_tables ∷ install_cdc ∷ listen k ∷ []) order)

  IsReady-serve :
      (o : Options)
      → Listens k (make_calls result (serve o) end).0
      → IsReady o (make_calls result (serve o) end).0
  unfolding serve
  IsReady-serve o h = by_restore (o.snapshot_enable && o.replicate) h
    where
      by_restore :
          (b : Bool)
          → let cs = only_if b (call restore_snapshot panics) ++ lead_calls o in
            let rs = (if b then restore_snapshot ∷ [] else []) ++ list_tables ∷ install_cdc ∷ [] in
            Listens k (make_calls result cs end).0
            → ((0 < k) × (k ≤ o.shards))
              × All (λ a. result a ≡ ok tt) rs
              × InOrder (rs ++ listen k ∷ []) (make_calls result cs end).0
      by_restore false h =
          let (bounds, listed, installed, order) = lead_calls-Watches o h in
          (bounds, (listed, (installed, tt)), order)
      by_restore true h =
          let (restored, h1, go) =
            Listens-call result k end (call restore_snapshot panics) (lead_calls o) (λ e. cc) h in
          let (bounds, listed, installed, order) = lead_calls-Watches o h1 in
          (
            bounds,
            (
              must_pass result k end (call restore_snapshot panics) (λ e. cc) restored,
              (listed, (installed, tt)),
            ),
            go.1 (list_tables ∷ install_cdc ∷ listen k ∷ []) order,
          )

  IsReady-status_calls :
      (o : Options)
      → Listens k (make_calls result (status_calls o) end).0
      → IsReady o (make_calls result (status_calls o) end).0
  unfolding status_calls
  IsReady-status_calls o h = by_cluster o.schema_status_cluster h
    where
      print : List Call
      print = call print_status goes_on ∷ []

      calls : Bool → List Call
      calls b = if b then call new_storage panics ∷ call new_replicator panics ∷ print else print

      by_cluster :
          (b : Bool)
          → Listens k (make_calls result (calls b) end).0
          → IsReady o (make_calls result (calls b) end).0
      by_cluster false h = absurd (no_listener result k end (call print_status goes_on) (λ e. cc) h)
      by_cluster true h =
          let (_, h1, _) =
            Listens-call result k end (call new_storage panics) (call new_replicator panics ∷ print)
              (λ e. cc) h in
          let (_, h2, _) =
            Listens-call result k end (call new_replicator panics) print (λ e. cc) h1 in
          absurd (no_listener result k end (call print_status goes_on) (λ e. cc) h2)

  IsReady-replicator_calls :
      (o : Options)
      → Listens k (make_calls result (replicator_calls o) end).0
      → IsReady o (make_calls result (replicator_calls o) end).0
  unfolding replicator_calls
  IsReady-replicator_calls o h =
      let last = if o.save_snapshot then call force_save goes_on ∷ [] else serve o in
      let rest = only_if o.health_enable (call start_health goes_on) ++ last in
      let (_, h1, go1) =
        Listens-call result k end (call new_storage panics) (call new_replicator panics ∷ rest)
          (λ e. cc) h in
      let (_, h2, go2) = Listens-call result k end (call new_replicator panics) rest (λ e. cc) h1 in
      let (h3, go3) =
        Listens-only_if result k end o.health_enable (call start_health goes_on) last (λ e. cc)
          h2 in
      IsReady-Extends o (make_calls result last end).0 _ (λ xs x. go1.0 xs (go2.0 xs (go3 xs x)))
        (by_flag o.save_snapshot h3)
    where
      calls : Bool → List Call
      calls b = if b then call force_save goes_on ∷ [] else serve o

      by_flag :
          (b : Bool)
          → Listens k (make_calls result (calls b) end).0
          → IsReady o (make_calls result (calls b) end).0
      by_flag true h = absurd (no_listener result k end (call force_save goes_on) (λ e. cc) h)
      by_flag false h = IsReady-serve o h

  IsReady-main_calls :
      (o : Options)
      → Listens k (make_calls result (main_calls o) end).0
      → IsReady o (make_calls result (main_calls o) end).0
  unfolding main_calls
  IsReady-main_calls o h =
      let last =
        if o.cleanup
        then call remove_cdc panics ∷ []
        else if o.schema_status || o.schema_status_cluster
        then status_calls o
        else replicator_calls o in
      let (_, h1, go1) =
        Listens-call result k end (call check_file returns) (call open_stream_db returns ∷ last)
          (λ e. cc) h in
      let (_, h2, go2) =
        Listens-call result k end (call open_stream_db returns) last (λ e. cc) h1 in
      IsReady-Extends o (make_calls result last end).0 _ (λ xs x. go1.0 xs (go2.0 xs x))
        (by_flags o.cleanup (o.schema_status || o.schema_status_cluster) h2)
    where
      calls : Bool → Bool → List Call
      calls a b =
          if a
          then call remove_cdc panics ∷ []
          else if b
          then status_calls o
          else replicator_calls o

      by_flags :
          (a b : Bool)
          → Listens k (make_calls result (calls a b) end).0
          → IsReady o (make_calls result (calls a b) end).0
      by_flags true b h = absurd (no_listener result k end (call remove_cdc panics) (λ e. cc) h)
      by_flags false true h = IsReady-status_calls o h
      by_flags false false h = IsReady-replicator_calls o h

-- A listener that `main` starts, under any flags, configuration and failures, is for one of the
-- configured shards. Before it come, in this order, the restoration of a snapshot, where the node
-- restores snapshots, the listing of the tables, and the installation of the hooks; each of them
-- succeeded.
pub main-IsReady :
    (result : Action → Outcome) (o : Options) (k : ℕ)
    → Listens k (main result o).0
    → IsReady result k (end_of o) o (main result o).0
unfolding main
main-IsReady result o k h = IsReady-main_calls result k (end_of o) o h
