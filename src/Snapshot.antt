-- ===== src/Snapshot.antt =====
-- snapshot/db_snapshot.go and snapshot/nats_storage.go: saving a copy of the database in an object
-- store of NATS, and restoring it. The object store is the parameter `ObjectStore`; what the file
-- system, the backup and the restoration of the database return is an argument. `locked` is the
-- state of the mutex, which a save gives up on and a restoration waits for. The clean-up of
-- temporary directories and the other storage backends are left out.
pub mod Upload
pub mod Storage
use harmonylite.Prelude.{
  ℕ, ◌≡◌, Bool, true, false, Option, none, some, List, [], ◌∷◌, if◌then◌else◌, Err, Result, Outcome,
  ok, err, string_eq, nat_eq,
}
use harmonylite.Prelude.Results.{pending_snapshot, no_snapshot_found}

-- `unavailable` is the API error 503, on which the download is tried again.
pub data Fetched : Type 0 where
  content : List ℕ → Fetched
  not_found unavailable : Fetched
  refused : Err → Fetched

-- An object store with the one object of the snapshot. `delete` returns `ok tt` also for
-- `ErrObjectNotFound`, which the code passes over.
pub record ObjectStore (S : Type 0) : Type 0 where
  pub delete : S → Outcome × S
  pub put : List ℕ → S → Outcome × S
  pub get_file : S → Fetched
  pub get-delete : (s : S) → (delete s).0 ≡ ok tt → get_file (delete s).1 ≡ not_found
  -- What a failed `Put` has written is no object.
  pub put_failed :
      (b : List ℕ) (s : S) (e : Err) → (put b s).0 ≡ err e → get_file (put b s).1 ≡ get_file s
  pub get-put : (b : List ℕ) (s : S) → (put b s).0 ≡ ok tt → get_file (put b s).1 ≡ content b

-- What `SaveSnapshot` meets: the temporary directory, the backup, and the file that it wrote.
pub record SaveIo : Type 0 where
  pub mkdir : Outcome
  pub backup : Outcome
  pub read : Result (List ℕ)

module _ {S : Type 0} (store : ObjectStore S) where
  -- `Upload`: the old object is deleted before the new one is put. `read` is the reading of the
  -- file, first for its hash and then for its content.
  unfoldable pub upload : Result (List ℕ) → S → Outcome × S
  upload read s =
      let (r, s') = store.delete s in
      elim r [
        | err e ↦ (err e, s')
        | ok _ ↦ elim read [ err e ↦ (err e, s') | ok bytes ↦ store.put bytes s' ]
      ]

  after_backup : SaveIo → S → Outcome × S
  unfolding upload
  after_backup io s = elim io.backup [ err e ↦ (err e, s) | ok _ ↦ upload io.read s ]

  -- `NatsDBSnapshot.SaveSnapshot`
  unfoldable pub save_snapshot : Bool → SaveIo → S → Outcome × S
  unfolding after_backup
  save_snapshot locked io s =
      if locked
      then (err pending_snapshot, s)
      else elim io.mkdir [ err e ↦ (err e, s) | ok _ ↦ after_backup io s ]

-- `Download`; `later` is what the next answers of the store are, as long as it is unavailable.
-- The loop of the code has no bound. Here it ends with the answers, which stands for a loop that
-- goes on.
unfoldable pub download : List Fetched → Option (Result (List ℕ))
download [] = none
download (content b ∷ later) = some (ok b)
download (not_found ∷ later) = some (err no_snapshot_found)
download (unavailable ∷ later) = download later
download (refused e ∷ later) = some (err e)

is_missing : Err → Bool
is_missing no_snapshot_found = true
is_missing _ = false

-- `NatsDBSnapshot.RestoreSnapshot`, on what the download returns. The second component is the
-- content that the database was restored from.
unfoldable pub restore_snapshot :
    Outcome → Result (List ℕ) → (List ℕ → Outcome) → Outcome × Option (List ℕ)
unfolding is_missing
restore_snapshot (err e) download restore_from = (err e, none)
restore_snapshot (ok u) (err e) restore_from = if is_missing e then (ok tt, none) else (err e, none)
restore_snapshot (ok u) (ok bytes) restore_from = (restore_from bytes, some bytes)

-- A restoration from an object store that answers like this, where the directory can be made.
unfoldable pub restore_once : List Fetched → (List ℕ → Outcome) → Option (Outcome × Option (List ℕ))
unfolding download restore_snapshot
restore_once answers restore_from = elim (download answers) [
  | none ↦ none
  | some r ↦ some (restore_snapshot (ok tt) r restore_from)
]
