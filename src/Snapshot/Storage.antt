-- ===== src/Snapshot/Storage.antt =====
-- snapshot/webdav_storage.go, snapshot/s3_storage.go, snapshot/sftp_storage.go and the choice of
-- snapshot/nats_snapshot.go. The client libraries are interfaces with the documented laws that are
-- used. `read` is the reading of the local file, and `write_local` the writing of the downloaded one.
-- The making of the clients is an argument.
pub mod Kept
use harmonylite.Prelude.{
  take, ℕ, String, ◌≡◌, ◌≢◌, Option, none, some, List, [], ◌==◌, if◌then◌else◌, Err, Result, ◌>>◌,
  Outcome, ok, err,
}
use harmonylite.Prelude.Results.{no_snapshot_found, invalid_storage_type}

-- `Storage`: what the callers of a backend see.
pub record Storage (S : Type 0) : Type 0 where
  pub upload : Result (List ℕ) → S → Outcome × S
  pub download : Outcome → S → Result (List ℕ)

-- An error of a server with a status, or another one.
pub data Response : Type 0 where
  success : Response
  status : ℕ → Err → Response
  refused : Err → Response

-- A WebDAV client: what reading a path gives, and its operations.
pub record WebDav (S : Type 0) : Type 0 where
  pub read_stream : String → S → Response × List ℕ
  pub mkdir_all : String → S → Response × S
  pub write_stream : String → List ℕ → S → Outcome × S
  pub rename : String → String → S → Outcome × S
  pub read-mkdir_all : (d p : String) (s : S) → read_stream p (mkdir_all d s).1 ≡ read_stream p s
  pub read-write_stream :
      (p : String) (b : List ℕ) (s : S)
      → (write_stream p b s).0 ≡ ok tt
      → read_stream p (write_stream p b s).1 ≡ (success, b)
  -- A write, also a failing one, changes its own path alone.
  pub read-write_other :
      (p q : String) (b : List ℕ) (s : S)
      → p ≢ q
      → read_stream q (write_stream p b s).1 ≡ read_stream q s
  pub read-rename :
      (p q : String) (s : S)
      → (rename p q s).0 ≡ ok tt
      → read_stream q (rename p q s).1 ≡ read_stream p s

abbrev pub no_snapshot_if : ℕ → Response → Outcome
no_snapshot_if n success = ok tt
no_snapshot_if n (status m e) = if m == n then err no_snapshot_found else err e
no_snapshot_if n (refused e) = err e

module _ {S : Type 0} (dav : WebDav S) (dir : String) where
  -- The status 409 says that the directory is there.
  unfoldable pub make_storage_path : S → Outcome × S
  make_storage_path s =
      let (r, s') = dav.mkdir_all dir s in
      elim r [
        | success ↦ (ok tt, s')
        | status n e ↦ if n == 409 then (ok tt, s') else (err e, s')
        | refused e ↦ (err e, s')
      ]

  pub on_written : String → String → Outcome × S → Outcome × S
  on_written node_path completed_path (err e, s) = (err e, s)
  on_written node_path completed_path (ok _, s) = dav.rename node_path completed_path s

  pub on_path : String → String → List ℕ → Outcome × S → Outcome × S
  unfolding on_written
  on_path node_path completed_path bytes (err e, s) = (err e, s)
  on_path node_path completed_path bytes (ok _, s) =
      on_written node_path completed_path (dav.write_stream node_path bytes s)

  -- `webDAVStorage.Upload`, to a temporary path first.
  unfoldable pub upload_webdav : String → String → Result (List ℕ) → S → Outcome × S
  unfolding on_path make_storage_path
  upload_webdav node_path completed_path read s = elim read [
    | err e ↦ (err e, s)
    | ok bytes ↦ on_path node_path completed_path bytes (make_storage_path s)
  ]

  -- `webDAVStorage.Download`
  unfoldable pub download_webdav : String → Outcome → S → Result (List ℕ)
  download_webdav read_path write_local s =
      let (r, bytes) = dav.read_stream read_path s in
      no_snapshot_if 404 r >> write_local >> ok bytes

  -- `Upload` joins the name to the path of the root and the directory, `Download` to the directory.
  abbrev pub webdav_storage : String → String → String → Storage S
  webdav_storage node_path completed_path read_path = record {
    upload = upload_webdav node_path completed_path;
    download = download_webdav read_path;
  }

-- An S3 client, for the one object of the snapshot. `FPutObject` replaces the object or leaves it.
pub record S3 (S : Type 0) : Type 0 where
  pub put_file : List ℕ → S → Outcome × S
  pub get_file : S → Response × List ℕ

module _ {S : Type 0} (s3 : S3 S) where
  -- `s3Storage.Upload`
  unfoldable pub upload_s3 : Result (List ℕ) → S → Outcome × S
  upload_s3 (err e) s = (err e, s)
  upload_s3 (ok bytes) s = s3.put_file bytes s

  -- `s3Storage.Download`
  unfoldable pub download_s3 : Outcome → S → Result (List ℕ)
  download_s3 write_local s =
      let (r, bytes) = s3.get_file s in no_snapshot_if 404 r >> write_local >> ok bytes

  abbrev pub s3_storage : Storage S
  s3_storage = record { upload = upload_s3; download = download_s3 }

-- An SFTP client, for the one file of the snapshot. `none` is a file that does not exist.
pub record Sftp (S : Type 0) : Type 0 where
  pub content : S → Option (List ℕ)
  pub open_error : S → Outcome
  pub mkdir_all : S → Outcome × S
  -- `OpenFile` with O_TRUNC.
  pub open_file : S → Outcome × S
  pub read_from : List ℕ → S → Outcome × S
  pub content-open_file : (s : S) → (open_file s).0 ≡ ok tt → content (open_file s).1 ≡ some []
  pub content-read_from :
      (b : List ℕ) (s : S)
      → content s ≡ some []
      → (read_from b s).0 ≡ ok tt
      → content (read_from b s).1 ≡ some b
  -- A transfer that breaks off has written a part.
  pub read_from_failed :
      (b : List ℕ) (s : S) (e : Err)
      → content s ≡ some []
      → (read_from b s).0 ≡ err e
      → (n : ℕ) × (content (read_from b s).1 ≡ some (take n b))

module _ {S : Type 0} (sftp : Sftp S) where
  pub on_opened : List ℕ → Outcome × S → Outcome × S
  on_opened bytes (err e, s) = (err e, s)
  on_opened bytes (ok _, s) = sftp.read_from bytes s

  -- `sftpStorage.Upload`
  unfoldable pub upload_sftp : Result (List ℕ) → S → Outcome × S
  unfolding on_opened
  upload_sftp read s =
      let (r, s') = sftp.mkdir_all s in
      elim r [
        | err e ↦ (err e, s')
        | ok _ ↦ elim read [ err e ↦ (err e, s') | ok bytes ↦ on_opened bytes (sftp.open_file s') ]
      ]

  -- `sftpStorage.Download`
  unfoldable pub download_sftp : Outcome → S → Result (List ℕ)
  download_sftp write_local s = elim (sftp.open_error s) [
    | err e ↦ err e
    | ok _ ↦ elim (sftp.content s) [
      | none ↦ err no_snapshot_found
      | some bytes ↦ write_local >> ok bytes
    ]
  ]

  abbrev pub sftp_storage : Storage S
  sftp_storage = record { upload = upload_sftp; download = download_sftp }

-- `SnapshotStorageType` of the configuration.
pub data StorageType : Type 0 where
  sftp webdav nats s3 unknown : StorageType

-- `NewSnapshotStorage`, on what making each backend returns.
unfoldable pub new_snapshot_storage :
    {S : Type 0}
    → Result (Storage S)
    → Result (Storage S)
    → Result (Storage S)
    → Result (Storage S)
    → StorageType
    → Result (Storage S)
new_snapshot_storage new_sftp new_webdav new_nats new_s3 sftp = new_sftp
new_snapshot_storage new_sftp new_webdav new_nats new_s3 webdav = new_webdav
new_snapshot_storage new_sftp new_webdav new_nats new_s3 nats = new_nats
new_snapshot_storage new_sftp new_webdav new_nats new_s3 s3 = new_s3
new_snapshot_storage new_sftp new_webdav new_nats new_s3 unknown = err invalid_storage_type
