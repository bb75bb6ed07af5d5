-- ===== src/Pool.antt =====
-- pool/connection_pool.go: a bounded pool of SQLite connections that are opened when they are first
-- borrowed. The channel holds the idle connections; a receive from an empty one blocks, for which
-- `borrow` has no result. `OpenRaw` calls the SQLite driver: what it returns is an argument.
-- `reset`, which nothing calls, and the getters are left out.
pub mod Ownership
pub mod Run
use harmonylite.Prelude.{
  length, ℕ, zero, suc, Bool, false, Option, none, some, List, [], ◌∷◌, ◌++◌, ◌==◌, if◌then◌else◌,
  Result, Outcome, ok, err, ◌>>=◌, ◌>>◌,
}
use harmonylite.Prelude.Results.{wrong_pool}

-- `handle` is the open database; `disposer` the pool that opened it.
pub record SqliteConnection : Type 0 where
  pub handle : Option ℕ
  pub disposer : Option ℕ
  pub state : ℕ

-- `&SQLiteConnection{}`
abbrev pub fresh : SqliteConnection
fresh = record { handle = none; disposer = none; state = 0 }

-- `id` tells pools apart, as their pointers do.
pub record SqlitePool : Type 0 where
  pub id : ℕ
  pub connections : List SqliteConnection

-- The compare-and-swap of the state from 0 to 1 guards the opening.
unfoldable pub init : Result ℕ → ℕ → SqliteConnection → Outcome × SqliteConnection
init open_raw pool q =
    if q.state == 0
    then (elim open_raw [
      | err e ↦ (err e, record q { state = 0 })
      | ok h ↦ (ok tt, record { handle = some h; disposer = some pool; state = 1 })
    ])
    else (ok tt, q)

unfoldable pub fill :
    (ℕ → Result ℕ) → ℕ → Bool → ℕ → List SqliteConnection → Result (List SqliteConnection)
unfolding init
fill opens id lazy zero made = ok made
fill opens id lazy (suc left) made =
    if lazy
    then fill opens id lazy left (made ++ fresh ∷ [])
    else (let (r, con) = init (opens (length made)) id fresh in
        elim r [ err e ↦ err e | ok _ ↦ fill opens id lazy left (made ++ con ∷ []) ])

-- `NewSQLitePool`; `opens` is what `OpenRaw` returns for each connection.
unfoldable pub new_sqlite_pool : (ℕ → Result ℕ) → ℕ → ℕ → Bool → Result SqlitePool
unfolding fill
new_sqlite_pool opens id pool_size lazy = do
  made ← fill opens id lazy pool_size []
  ok (record { id = id; connections = made })

-- `Borrow`. An opening that fails puts an unopened connection back.
unfoldable pub borrow : Result ℕ → SqlitePool → Option (Result SqliteConnection × SqlitePool)
unfolding init
borrow open_raw q = elim q.connections [
  | [] ↦ none
  | c ∷ rest ↦
      let (r, c') = init open_raw q.id c in
      some (elim r [
        | err e ↦ (err e, record q { connections = rest ++ fresh ∷ [] })
        | ok _ ↦ (ok c', record q { connections = rest })
      ])
]

abbrev pub owns : ℕ → Option ℕ → Bool
owns pool none = false
owns pool (some d) = d == pool

-- `Dispose`; `Return` calls it on the connection's disposer.
unfoldable pub dispose : SqliteConnection → SqlitePool → Outcome × SqlitePool
dispose obj q =
    if owns q.id obj.disposer
    then (ok tt, record q { connections = q.connections ++ obj ∷ [] })
    else (err wrong_pool, q)
