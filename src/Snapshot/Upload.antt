-- ===== src/Snapshot/Upload.antt =====
-- What an upload of snapshot/nats_storage.go leaves for the next restoration.
use harmonylite.Prelude.{
  ℕ, ◌≡◌, refl, sym, ap, ◌∙◌, subst, inl, inr, false, none, some, List, [], ◌∷◌, arith, Err, Result,
  Outcome, Result-cases, ok, err, string_eq, nat_eq,
}
use harmonylite.Snapshot.{ObjectStore, upload, save_snapshot, content, not_found, restore_once}

module _ {S : Type 0} (store : ObjectStore S) where
  -- What an upload leaves, by its result, once the old object could be deleted.
  abbrev Leaves : Result (List ℕ) → Outcome × S → Type 0
  Leaves read (ok u, s) = (b : List ℕ) × (read ≡ ok b) × (store.get_file s ≡ content b)
  Leaves read (err e, s) = store.get_file s ≡ not_found

  put-Leaves :
      (bytes : List ℕ) (s : S) (x : Outcome × S)
      → store.put bytes s ≡ x
      → store.get_file s ≡ not_found
      → Leaves (ok bytes) x
  put-Leaves bytes s (err e, t) q d = ground (arith, store.put_failed bytes s e)
  put-Leaves bytes s (ok u, t) q d = (
    bytes,
    refl,
    ap (λ (x : Outcome × S). store.get_file x.1) (sym q)
        ∙ store.get-put bytes s (ap (λ (x : Outcome × S). x.0) q),
  )

  uploaded :
      (bytes : List ℕ) (s : S)
      → (store.delete s).0 ≡ ok tt
      → upload store (ok bytes) s ≡ store.put bytes (store.delete s).1
  unfolding upload
  uploaded bytes s d = ground arith

  unread :
      (e : Err) (s : S)
      → (store.delete s).0 ≡ ok tt
      → upload store (err e) s ≡ (err e, (store.delete s).1)
  unfolding upload
  unread e s d = ground arith

  undeleted :
      (bytes : List ℕ) (s : S) (e : Err)
      → (store.delete s).0 ≡ err e
      → (upload store (ok bytes) s).0 ≡ err e
  unfolding upload
  undeleted bytes s e d = ground arith

  upload-Leaves :
      (read : Result (List ℕ)) (s : S)
      → (store.delete s).0 ≡ ok tt
      → Leaves read (upload store read s)
  upload-Leaves (err e) s d = subst (Leaves (err e)) (sym (unread e s d)) (store.get-delete s d)
  upload-Leaves (ok bytes) s d = subst (Leaves (ok bytes)) (sym (uploaded bytes s d)) (
      put-Leaves bytes (store.delete s).1 (store.put bytes (store.delete s).1) refl
        (store.get-delete s d))

  -- A save that reports success, with the mutex free, leaves a snapshot that the next restoration
  -- downloads as the file that was backed up, and restores from.
  pub restore-save :
      (bytes : List ℕ) (s : S) (restore_from : List ℕ → Outcome)
      → (save_snapshot store false (record { mkdir = ok tt; backup = ok tt; read = ok bytes }) s).0
        ≡ ok tt
      → restore_once
          (store.get_file
              (save_snapshot store false
                (record { mkdir = ok tt; backup = ok tt; read = ok bytes })
                s).1
            ∷ [])
          restore_from
        ≡ some (restore_from bytes, some bytes)
  unfolding save_snapshot restore_once
  restore-save bytes s restore_from h = elim (Result-cases (store.delete s).0) [
    | inl (e, d) ↦ elim (clash e (sym (undeleted bytes s e d) ∙ h)) [ ]
    | inr (u, d) ↦ by_result (upload store (ok bytes) s) (upload-Leaves (ok bytes) s d) h
  ]
    where
      clash : (e : Err) → ¬ (◌≡◌ {A = Outcome} (err e) (ok tt))
      clash e k = cc

      by_result :
          (x : Outcome × S)
          → Leaves (ok bytes) x
          → x.0 ≡ ok tt
          → restore_once (store.get_file x.1 ∷ []) restore_from
            ≡ some (restore_from bytes, some bytes)
      by_result (err f, t) k q = cc
      by_result (ok u, t) (b, e, k) q = rw k (ground arith)

  -- Once the old snapshot is deleted, an upload that then fails leaves no snapshot at all: the next
  -- restoration reports success and restores nothing.
  pub failed_upload_loses :
      (read : Result (List ℕ)) (s : S) (e : Err) (restore_from : List ℕ → Outcome)
      → (store.delete s).0 ≡ ok tt
      → (upload store read s).0 ≡ err e
      → restore_once (store.get_file (upload store read s).1 ∷ []) restore_from ≡ some (ok tt, none)
  unfolding restore_once
  failed_upload_loses read s e restore_from d h =
      by_result (upload store read s) (upload-Leaves read s d) h
    where
      by_result :
          (x : Outcome × S)
          → Leaves read x
          → x.0 ≡ err e
          → restore_once (store.get_file x.1 ∷ []) restore_from ≡ some (ok tt, none)
      by_result (ok u, t) k q = cc
      by_result (err f, t) k q = rw k refl
