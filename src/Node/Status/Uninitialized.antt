-- ===== src/Node/Status/Uninitialized.antt =====
-- What `-schema-status` of harmonylite.go prints.
use harmonylite.Prelude.{
  All, ℕ, String, ◌≡◌, refl, ◌≢◌, true, false, none, some, List, [], ◌∷◌, arith, Result, Outcome,
  ok, err,
}
use harmonylite.Db.Sqlite.{SchemaObject}
use harmonylite.Db.Sqlite.Install.{Installation}
use harmonylite.Db.Sqlite.Restore.{open_stream_db}
use harmonylite.Node.Start.{
  Action, Call, Finish, OnFail, Options, make_calls, main_calls, main, install_cdc, end_of, goes_on,
  returns, panics, returned, panicked,
}
use harmonylite.Node.Status.{title, uninitialized, print_local_schema_status, get_schema_hash}

-- The calls that are made are among those of the list.
make_calls-All :
    (P : Action → Type 0) (result : Action → Outcome) (cs : List Call) (end : Finish)
    → All (λ c. P c.action) cs
    → All P (make_calls result cs end).0
unfolding make_calls
make_calls-All P result [] end a = tt
make_calls-All P result (c ∷ cs) end (p, a) =
    by_result (result c.action) c.on_fail (p, make_calls-All P result cs end a)
  where
    next : List Action × Finish
    next = (c.action ∷ (make_calls result cs end).0, (make_calls result cs end).1)

    by_result :
        (x : Outcome) (f : OnFail)
        → All P next.0
        → All P
            (elim x as (λ _. List Action × Finish) [
              | ok _ ↦ next
              | err e ↦ elim f as (λ _. List Action × Finish) [
                | goes_on ↦ next
                | returns ↦ (c.action ∷ [], returned)
                | panics ↦ (c.action ∷ [], panicked)
              ]
            ]).0
    by_result (ok u) f a = a
    by_result (err e) goes_on a = a
    by_result (err e) returns a = (p, tt)
    by_result (err e) panics a = (p, tt)

opened_cache :
    (new_pool borrow : Outcome) (checkpoint : List (Result ℕ)) (schema : List SchemaObject)
    (db : Installation)
    → open_stream_db new_pool borrow checkpoint schema ≡ some (ok db)
    → db.schema_cache ≡ none
unfolding open_stream_db
opened_cache new_pool borrow checkpoint schema db h = ground (arith, h)

-- With `-schema-status` alone, the program never installs the hooks, and only the installation fills
-- the schema cache: whatever database it opened, whatever its tables, its schema and its triggers,
-- it prints that the hash is not initialized.
pub status_is_uninitialized :
    (result : Action → Outcome) (o : Options) (new_pool borrow : Outcome)
    (checkpoint : List (Result ℕ)) (schema : List SchemaObject) (db : Installation) (node_id : ℕ)
    (version : String) (tables : Result (List String))
    → o.cleanup ≡ false
    → o.schema_status ≡ true
    → o.schema_status_cluster ≡ false
    → open_stream_db new_pool borrow checkpoint schema ≡ some (ok db)
    → All (λ (a : Action). a ≢ install_cdc) (main result o).0
      × (print_local_schema_status node_id version tables db ≡ title ∷ uninitialized ∷ [])
unfolding main print_local_schema_status get_schema_hash
status_is_uninitialized result o new_pool borrow checkpoint schema db node_id version tables c s k
      h =
    (
      make_calls-All (λ a. a ≢ install_cdc) result (main_calls o) (end_of o)
          ((λ e. cc), ((λ e. cc), rw (c, s, k) ((λ e. cc), tt))),
      rw (opened_cache new_pool borrow checkpoint schema db h) refl,
    )
