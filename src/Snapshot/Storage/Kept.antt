-- ===== src/Snapshot/Storage/Kept.antt =====
-- What an upload to the backends of snapshot/webdav_storage.go and snapshot/sftp_storage.go leaves.
use harmonylite.Prelude.{
  take, ℕ, String, ◌≡◌, refl, sym, ap, ◌∙◌, ◌≢◌, ◌⊎◌, inl, inr, some, List, arith, Err, Result,
  Outcome, ok, err,
}
use harmonylite.Snapshot.Storage.{
  WebDav, Sftp, success, make_storage_path, on_path, on_written, upload_webdav, download_webdav,
  upload_sftp, download_sftp, on_opened,
}

-- After an upload: the next download gives its bytes, or, if it failed, what it gave before, unless it
-- was the last call that failed, the renaming of a temporary file with all bytes.
abbrev pub Keeps :
    {S : Type 0}
    → (S → Result (List ℕ))
    → (List ℕ → Err → S → Type 0)
    → Result (List ℕ)
    → S
    → Outcome × S
    → Type 0
Keeps download Renames read s (ok u, t) =
    (bytes : List ℕ) × (read ≡ ok bytes) × (download t ≡ ok bytes)
Keeps download Renames read s (err e, t) =
    (download t ≡ download s) ⊎ ((bytes : List ℕ) × (read ≡ ok bytes) × Renames bytes e t)

module _ {S : Type 0} (dav : WebDav S) (dir node_path completed_path read_path : String)
    (apart : node_path ≢ completed_path)
    (one_file : (s : S) → dav.read_stream read_path s ≡ dav.read_stream completed_path s) where
  -- The renaming of a temporary file with these bytes failed.
  abbrev pub RenameFails : List ℕ → Err → S → Type 0
  RenameFails bytes e t =
      (x : S) × (dav.read_stream node_path x ≡ (success, bytes))
      × (dav.rename node_path completed_path x ≡ (err e, t))

  abbrev Same : S → S → Type 0
  Same s t = dav.read_stream completed_path t ≡ dav.read_stream completed_path s

  Same-make_storage_path : (s : S) → Same s (make_storage_path dav dir s).1
  unfolding make_storage_path
  Same-make_storage_path s = ground (arith, dav.read-mkdir_all dir completed_path s)

  abbrev Renamed : S → List ℕ → Outcome × S → Type 0
  Renamed s bytes (ok u, t) = dav.read_stream completed_path t ≡ (success, bytes)
  Renamed s bytes (err e, t) = Same s t ⊎ RenameFails bytes e t

  -- What is read after a call, given what the call returns.
  after : (p : String) (r x : Outcome × S) → r ≡ x → dav.read_stream p x.1 ≡ dav.read_stream p r.1
  after p r x q = ap (λ (y : Outcome × S). dav.read_stream p y.1) (sym q)

  Renamed-rename :
      (s t : S) (bytes : List ℕ)
      → Same s t
      → dav.read_stream node_path t ≡ (success, bytes)
      → Renamed s bytes (dav.rename node_path completed_path t)
  Renamed-rename s t bytes same there = by_rename (dav.rename node_path completed_path t) refl
    where
      by_rename : (r : Outcome × S) → dav.rename node_path completed_path t ≡ r → Renamed s bytes r
      by_rename (ok u, x) q =
          after completed_path (dav.rename node_path completed_path t) (ok u, x) q
          ∙ dav.read-rename node_path completed_path t (ap (λ (y : Outcome × S). y.0) q)
          ∙ there
      by_rename (err e, x) q = inr (t, there, q)

  Renamed-on_written :
      (s t : S) (bytes : List ℕ)
      → Same s t
      → Renamed s bytes
          (on_written dav dir node_path completed_path (dav.write_stream node_path bytes t))
  unfolding on_written
  Renamed-on_written s t bytes same = by_write (dav.write_stream node_path bytes t) refl
    where
      by_write :
          (w : Outcome × S)
          → dav.write_stream node_path bytes t ≡ w
          → Renamed s bytes (on_written dav dir node_path completed_path w)
      by_write (err e, x) q = inl (
          after completed_path (dav.write_stream node_path bytes t) (err e, x) q
          ∙ dav.read-write_other node_path completed_path bytes t apart
          ∙ same)
      by_write (ok u, x) q =
          Renamed-rename s x bytes
            (after completed_path (dav.write_stream node_path bytes t) (ok u, x) q
              ∙ dav.read-write_other node_path completed_path bytes t apart
              ∙ same)
            (after node_path (dav.write_stream node_path bytes t) (ok u, x) q
              ∙ dav.read-write_stream node_path bytes t (ap (λ (y : Outcome × S). y.0) q))

  downloads :
      (s t : S)
      → Same s t
      → download_webdav dav dir read_path (ok tt) t ≡ download_webdav dav dir read_path (ok tt) s
  unfolding download_webdav
  downloads s t h = rw (one_file t, one_file s, h) refl

  Keeps-Renamed :
      (bytes : List ℕ) (s : S) (r : Outcome × S)
      → Renamed s bytes r
      → Keeps (download_webdav dav dir read_path (ok tt)) RenameFails (ok bytes) s r
  unfolding download_webdav
  Keeps-Renamed bytes s (ok u, t) h = (bytes, refl, rw (one_file t, h) refl)
  Keeps-Renamed bytes s (err e, t) (inl h) = inl (downloads s t h)
  Keeps-Renamed bytes s (err e, t) (inr f) = inr (bytes, refl, f)

  -- An upload to WebDAV that succeeds leaves the snapshot that the next download gives. One that fails
  -- leaves the download as it was, unless its last call failed: the renaming, which found a temporary
  -- file with all bytes. The temporary path is not the snapshot's, and the paths of `Upload` and
  -- `Download` name one file.
  pub upload_webdav-Keeps :
      (read : Result (List ℕ)) (s : S)
      → Keeps
          (download_webdav dav dir read_path (ok tt))
          RenameFails
          read
          s
          (upload_webdav dav dir node_path completed_path read s)
  unfolding upload_webdav
  upload_webdav-Keeps (err e) s = inl refl
  upload_webdav-Keeps (ok bytes) s =
      Keeps-Renamed bytes s _ (by_path (make_storage_path dav dir s) (Same-make_storage_path s))
    where
      by_path :
          (r : Outcome × S)
          → Same s r.1
          → Renamed s bytes (on_path dav dir node_path completed_path bytes r)
      by_path (err e, t) h = unfold on_path in inl h
      by_path (ok u, t) h = unfold on_path in Renamed-on_written s t bytes h

module _ {S : Type 0} (sftp : Sftp S) where
  uploaded :
      (bytes : List ℕ) (s : S)
      → (sftp.mkdir_all s).0 ≡ ok tt
      → (sftp.open_file (sftp.mkdir_all s).1).0 ≡ ok tt
      → upload_sftp sftp (ok bytes) s ≡ sftp.read_from bytes (sftp.open_file (sftp.mkdir_all s).1).1
  unfolding upload_sftp on_opened
  uploaded bytes s m o = ground arith

  downloaded :
      (bytes : List ℕ) (t : S)
      → sftp.open_error t ≡ ok tt
      → sftp.content t ≡ some bytes
      → download_sftp sftp (ok tt) t ≡ ok bytes
  unfolding download_sftp
  downloaded bytes t o c = ground arith

  -- A transfer to SFTP that breaks off after the file was opened replaces the old snapshot by a part
  -- of the new one, and the next download gives that part as if it were whole.
  pub upload_sftp_tears :
      (bytes : List ℕ) (s : S) (e : Err)
      → (sftp.mkdir_all s).0 ≡ ok tt
      → (sftp.open_file (sftp.mkdir_all s).1).0 ≡ ok tt
      → (sftp.read_from bytes (sftp.open_file (sftp.mkdir_all s).1).1).0 ≡ err e
      → sftp.open_error (upload_sftp sftp (ok bytes) s).1 ≡ ok tt
      → ((upload_sftp sftp (ok bytes) s).0 ≡ err e)
        × ((n : ℕ) × (download_sftp sftp (ok tt) (upload_sftp sftp (ok bytes) s).1
              ≡ ok (take n bytes)))
  upload_sftp_tears bytes s e m o f up =
      let t = (sftp.open_file (sftp.mkdir_all s).1).1 in
      let (n, part) =
        sftp.read_from_failed bytes t e (sftp.content-open_file (sftp.mkdir_all s).1 o) f in
      let sent = uploaded bytes s m o in
      (
        ap (λ (r : Outcome × S). r.0) sent ∙ f,
        (
          n,
          downloaded (take n bytes) (upload_sftp sftp (ok bytes) s).1 up
              (ap (λ (r : Outcome × S). sftp.content r.1) sent ∙ part),
        ),
      )
