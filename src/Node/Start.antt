-- ===== src/Node/Start.antt =====
-- The start of harmonylite.go: what `main` does, in its order, until its loop. What each call returns
-- is an argument. The profiler, telemetry, the stopping of what is deferred, and printing are left out.
pub mod Listening
pub mod Ready
use harmonylite.Prelude.{
  ℕ, zero, suc, Bool, ◌&&◌, ◌||◌, List, [], ◌∷◌, ◌++◌, if◌then◌else◌, Outcome, ok, err,
}

pub data Action : Type 0 where
  check_file open_stream_db remove_cdc print_status new_storage new_replicator : Action
  start_health force_save restore_snapshot start_leader list_tables install_cdc : Action
  publish_schema_state : Action
  listen : ℕ → Action

-- What `main` does where a call fails.
pub data OnFail : Type 0 where
  returns panics goes_on : OnFail

pub record Call : Type 0 where
  pub action : Action
  pub on_fail : OnFail

-- How `main` ends, or that it is in its loop.
pub data Finish : Type 0 where
  returned panicked looping : Finish

pub record Options : Type 0 where
  pub cleanup : Bool
  pub schema_status : Bool
  pub schema_status_cluster : Bool
  pub save_snapshot : Bool
  pub health_enable : Bool
  pub snapshot_enable : Bool
  pub replicate : Bool
  pub publish : Bool
  -- Whether the installation found a schema hash.
  pub has_hash : Bool
  pub shards : ℕ

abbrev call : Action → OnFail → Call
call a f = record { action = a; on_fail = f }

abbrev pub only_if : Bool → Call → List Call
only_if b c = if b then c ∷ [] else []

-- The loop over the shards from the `i`th on; streams count from 1.
unfoldable pub listeners : ℕ → ℕ → List Call
listeners i zero = []
listeners i (suc left) = call (listen (suc i)) goes_on ∷ listeners (suc i) left

watch_calls : Options → List Call
unfolding listeners
watch_calls o =
    call list_tables returns
      ∷ call install_cdc returns
      ∷ only_if o.has_hash (call publish_schema_state goes_on)
    ++ listeners 0 o.shards

lead_calls : Options → List Call
unfolding watch_calls
lead_calls o = only_if (o.snapshot_enable && o.publish) (call start_leader goes_on) ++ watch_calls o

unfoldable pub serve : Options → List Call
unfolding lead_calls
serve o = only_if (o.snapshot_enable && o.replicate) (call restore_snapshot panics) ++ lead_calls o

unfoldable pub replicator_calls : Options → List Call
unfolding serve
replicator_calls o =
    call new_storage panics
      ∷ call new_replicator panics
      ∷ only_if o.health_enable (call start_health goes_on)
    ++ (if o.save_snapshot then call force_save goes_on ∷ [] else serve o)

status_calls : Options → List Call
status_calls o =
    if o.schema_status_cluster
    then call new_storage panics ∷ call new_replicator panics ∷ call print_status goes_on ∷ []
    else call print_status goes_on ∷ []

-- The calls of `main` under the given flags, in their order.
unfoldable pub main_calls : Options → List Call
unfolding status_calls replicator_calls
main_calls o =
    call check_file returns
    ∷ call open_stream_db returns
    ∷ (if o.cleanup
        then call remove_cdc panics ∷ []
        else if o.schema_status || o.schema_status_cluster
        then status_calls o
        else replicator_calls o)

-- The calls that were made, and how it ends.
unfoldable pub make_calls : (Action → Outcome) → List Call → Finish → List Action × Finish
make_calls result [] end = ([], end)
make_calls result (c ∷ cs) end =
    let rest = make_calls result cs end in
    let next : List Action × Finish = (c.action ∷ rest.0, rest.1) in
    elim (result c.action) [
      | ok _ ↦ next
      | err e ↦ elim c.on_fail [
        | goes_on ↦ next
        | returns ↦ (c.action ∷ [], returned)
        | panics ↦ (c.action ∷ [], panicked)
      ]
    ]

-- Only a node that serves comes to the loop.
abbrev pub end_of : Options → Finish
end_of o =
    if o.cleanup || o.schema_status || o.schema_status_cluster || o.save_snapshot
    then returned
    else looping

unfoldable pub main : (Action → Outcome) → Options → List Action × Finish
unfolding make_calls main_calls
main result o = make_calls result (main_calls o) (end_of o)
