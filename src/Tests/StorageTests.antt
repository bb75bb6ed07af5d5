-- ===== src/Tests/StorageTests.antt =====
-- The storage backends at concrete inputs, over clients with the laws assumed.
use harmonylite.Prelude.{
  take, ◌≐◌, ≐_refl, ≐_ne, ℕ, String, ◌≡◌, refl, ◌≢◌, inl, inr, Bool, true, false, Option, some,
  List, [], ◌∷◌, eq_iff, if◌then◌else◌, Bool-cases, Outcome, canceled, ok, err, string_eq, nat_eq,
}
use harmonylite.Snapshot.Storage.{
  WebDav, Sftp, Response, success, status, upload_webdav, download_webdav, upload_sftp,
  download_sftp,
}
use harmonylite.Snapshot.Storage.Kept.{Keeps, RenameFails, upload_webdav-Keeps, upload_sftp_tears}

-- What a WebDAV server gives at each path.
abbrev Paths : Type 0
Paths = String → Response × List ℕ

abbrev put : String → Response × List ℕ → Paths → Paths
put p v s q = if p ≐ q then v else s q

-- A server that renames or, if `renames` is false, does not.
abbrev toy_rename : Bool → String → String → Paths → Outcome × Paths
toy_rename true p q s = (ok tt, put q (s p) s)
toy_rename false p q s = (err canceled, s)

put_self : (p : String) (v : Response × List ℕ) (s : Paths) → put p v s p ≡ v
put_self p v s = rw (≐_refl p) refl

put_other : (p q : String) (v : Response × List ℕ) (s : Paths) → p ≢ q → put p v s q ≡ s q
put_other p q v s ne = elim (Bool-cases (p ≐ q)) [
  | inl e ↦ absurd (ne ((eq_iff p q).0 e))
  | inr e ↦ rw e refl
]

rename_ok :
    (renames : Bool) (p q : String) (s : Paths)
    → (toy_rename renames p q s).0 ≡ ok tt
    → (toy_rename renames p q s).1 q ≡ s p
rename_ok true p q s h = put_self q (s p) s
rename_ok false p q s h = cc

abbrev toy_dav : Bool → WebDav Paths
toy_dav renames = record {
  read_stream = λ p s. s p;
  mkdir_all = λ d s. (status 409 canceled, s);
  write_stream = λ p b s. (ok tt, put p (success, b) s);
  rename = toy_rename renames;
  read-mkdir_all = λ d p s. refl;
  read-write_stream = λ p b s h. put_self p (success, b) s;
  read-write_other = λ p q b s ne. put_other p q (success, b) s ne;
  read-rename = rename_ok renames;
}

-- Every path has an old snapshot.
abbrev old_paths : Paths
old_paths p = (success, 7 ∷ [])

upload_webdav-Keeps_example :
    Keeps
      (download_webdav (toy_dav true) "/" "snapshot.db" (ok tt))
      (RenameFails
        (toy_dav true)
        "/"
        "temp"
        "snapshot.db"
        "snapshot.db"
        (≐_ne "temp" "snapshot.db" refl)
        (λ s. refl))
      (ok (8 ∷ []))
      old_paths
      (upload_webdav (toy_dav true) "/" "temp" "snapshot.db" (ok (8 ∷ [])) old_paths)
upload_webdav-Keeps_example =
    upload_webdav-Keeps (toy_dav true) "/" "temp" "snapshot.db" "snapshot.db"
      (≐_ne "temp" "snapshot.db" refl) (λ s. refl) (ok (8 ∷ [])) old_paths

-- An SFTP server whose transfers break off after one byte.
abbrev File : Type 0
File = Option (List ℕ)

never_whole : ¬ (◌≡◌ {A = Outcome} (err canceled) (ok tt))
never_whole h = cc

abbrev toy_sftp : Sftp File
toy_sftp = record {
  content = λ s. s;
  open_error = λ s. ok tt;
  mkdir_all = λ s. (ok tt, s);
  open_file = λ s. (ok tt, some []);
  read_from = λ b s. (err canceled, some (take 1 b));
  content-open_file = λ s h. refl;
  content-read_from = λ b s c h. absurd (never_whole h);
  read_from_failed = λ b s e c h. (1, refl);
}

upload_sftp_tears_example :
    ((upload_sftp toy_sftp (ok (8 ∷ 9 ∷ [])) (some (7 ∷ []))).0 ≡ err canceled)
    × ((n : ℕ) × (download_sftp toy_sftp
            (ok tt)
            (upload_sftp toy_sftp (ok (8 ∷ 9 ∷ [])) (some (7 ∷ []))).1
          ≡ ok (take n (8 ∷ 9 ∷ []))))
upload_sftp_tears_example =
    upload_sftp_tears toy_sftp (8 ∷ 9 ∷ []) (some (7 ∷ [])) canceled refl refl refl refl
