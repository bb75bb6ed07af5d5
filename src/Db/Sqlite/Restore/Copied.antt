-- ===== src/Db/Sqlite/Restore/Copied.antt =====
-- A restoration of db/sqlite.go in which nothing fails.
use Prim.Native.String.{◌++◌ as ◌^^◌}
use text.Mathlib.TextLemmas.{append_cancel_left, append-nil}
use harmonylite.Prelude.{
  All, entries, ◌≐◌, lookup-insert, ≐_refl, ≐_ne, lookup, insert, ℕ, String, ◌≡◌, refl, sym, ap,
  ◌∙◌, ◌≢◌, false, Option, none, some, List, [], ◌∷◌, ◌++◌, map, arith, Result, ok, string_eq,
  nat_eq,
}
use harmonylite.Db.Sqlite.Restore.{
  Files, CopyIo, RestoreIo, copy_file, then_copy, on_copied, restore_from, perform_checkpoint,
}

-- A checkpoint that is busy for a while and then is not, succeeds.
pub perform_checkpoint-busy :
    (busy : List ℕ) (later : List (Result ℕ))
    → All (λ n. n ≢ 0) busy
    → perform_checkpoint (map ok busy ++ ok 0 ∷ later) ≡ some (ok tt)
unfolding perform_checkpoint
perform_checkpoint-busy [] later h = ground arith
perform_checkpoint-busy (n ∷ busy) later h =
    ground (arith, h.0, perform_checkpoint-busy busy later h.1)

-- Nothing fails.
abbrev pub whole_copy : CopyIo
whole_copy = record { open_from = ok tt; open_to = ok tt; fails_after = none }

abbrev pub whole_restore : (Files → Files) → List (Result ℕ) → RestoreIo
whole_restore settle checkpoint = record {
  open_dest = ok tt;
  open_src = ok tt;
  begin = ok tt;
  copy = whole_copy;
  copy_shm = whole_copy;
  copy_wal = whole_copy;
  commit = ok tt;
  checkpoint = checkpoint;
  settle = settle;
}

-- The files of a database that is open.
abbrev pub HasFiles : String → List ℕ → List ℕ → List ℕ → Files → Type 0
HasFiles path main shm wal files =
    (lookup path files ≡ some main)
    × (lookup (path ^^ "-shm") files ≡ some shm)
    × (lookup (path ^^ "-wal") files ≡ some wal)

-- No file of the first database is one of the second.
abbrev pub Elsewhere : String → String → Type 0
Elsewhere p q = (p ≢ q ^^ "-shm") × (p ≢ q ^^ "-wal") × (p ^^ "-shm" ≢ q ^^ "-wal")

copied :
    (to_path from_path : String) (bytes : List ℕ) (files : Files)
    → lookup from_path files ≡ some bytes
    → copy_file whole_copy to_path from_path files ≡ (ok tt, insert to_path bytes files)
unfolding copy_file
copied to_path from_path bytes files h = ground arith

suffix-ne : (p a b : String) → (a ≐ b) ≡ false → p ^^ a ≢ p ^^ b
suffix-ne p a b ne h = ≐_ne a b ne (append_cancel_left p a b h)

path-ne : (p a : String) → ("" ≐ a) ≡ false → p ^^ a ≢ p
path-ne p a ne h = suffix-ne p "" a ne (append-nil p ∙ sym h)

stored : (k : String) (v : List ℕ) (files : Files) → lookup k (insert k v files) ≡ some v
stored k v files = rw (lookup-insert, ≐_refl k) refl

other :
    (k j : String) (v : List ℕ) (files : Files)
    → k ≢ j
    → lookup j (insert k v files) ≡ lookup j files
other k j v files ne = grind entries

ended :
    (settle : Files → Files) (checkpoint : List (Result ℕ)) (files : Files)
    → perform_checkpoint checkpoint ≡ some (ok tt)
    → on_copied (whole_restore settle checkpoint) (ok tt, files) ≡ some (ok tt, settle files)
unfolding on_copied
ended settle checkpoint files h = rw h refl

abbrev pub read_at :
    {D : Type 0} → (List ℕ → Option (List ℕ) → D) → Option (List ℕ) → Option (List ℕ) → Option D
read_at read none wal = none
read_at read (some main) wal = some (read main wal)

-- What SQLite reads at a path: the database in the file and its WAL, which `read` gives.
abbrev pub contents : {D : Type 0} → (List ℕ → Option (List ℕ) → D) → String → Files → Option D
contents read path files = read_at read (lookup path files) (lookup (path ^^ "-wal") files)

contents-HasFiles :
    {D : Type 0} (read : List ℕ → Option (List ℕ) → D) (path : String) (main shm wal : List ℕ)
    (files : Files)
    → HasFiles path main shm wal files
    → contents read path files ≡ some (read main (some wal))
contents-HasFiles read path main shm wal files (m, _, w) =
    ap (λ x. read_at read x (lookup (path ^^ "-wal") files)) m ∙ ap (read_at read (some main)) w

-- The files after the three copies.
abbrev three_copies : String → List ℕ → List ℕ → List ℕ → Files → Files
three_copies dest main shm wal files =
    insert (dest ^^ "-wal") wal (insert (dest ^^ "-shm") shm (insert dest main files))

three_copies-HasFiles :
    (dest : String) (main shm wal : List ℕ) (files : Files)
    → HasFiles dest main shm wal (three_copies dest main shm wal files)
three_copies-HasFiles dest main shm wal files =
    let one = insert dest main files in
    let two = insert (dest ^^ "-shm") shm one in
    (
      other (dest ^^ "-wal") dest wal two (path-ne dest "-wal" refl)
          ∙ other (dest ^^ "-shm") dest shm one (path-ne dest "-shm" refl)
          ∙ stored dest main files,
      other (dest ^^ "-wal") (dest ^^ "-shm") wal two (suffix-ne dest "-wal" "-shm" refl)
          ∙ stored (dest ^^ "-shm") shm one,
      stored (dest ^^ "-wal") wal two,
    )

restored :
    (settle : Files → Files) (checkpoint : List (Result ℕ)) (dest bk : String)
    (main shm wal : List ℕ) (files : Files)
    → Elsewhere dest bk
    → HasFiles bk main shm wal files
    → perform_checkpoint checkpoint ≡ some (ok tt)
    → restore_from (whole_restore settle checkpoint) dest bk files
      ≡ some (ok tt, settle (three_copies dest main shm wal files))
unfolding restore_from then_copy on_copied
restored settle checkpoint dest bk main shm wal files e (hm, hs, hw) c =
    let one = insert dest main files in
    let two = insert (dest ^^ "-shm") shm one in
    let shm_there : lookup (bk ^^ "-shm") one ≡ some shm =
      other dest (bk ^^ "-shm") main files e.0 ∙ hs in
    let wal_there : lookup (bk ^^ "-wal") two ≡ some wal =
      other (dest ^^ "-shm") (bk ^^ "-wal") shm one e.2
      ∙ other dest (bk ^^ "-wal") main files e.1
      ∙ hw in
    rw
      (
        copied dest bk main files hm,
        copied (dest ^^ "-shm") (bk ^^ "-shm") shm one shm_there,
        copied (dest ^^ "-wal") (bk ^^ "-wal") wal two wal_there,
      )
      (ended settle checkpoint _ c)

-- Where nothing fails and the checkpoint is busy only for a while, a restoration ends, and then SQLite
-- reads at the destination the database that it read at the backup before, whichever file it is in:
-- checkpoints and the closing of connections do not change what is read. The backup has its three
-- files, which are none of the destination's, in the order of the copies.
pub restore_from-contents :
    {D : Type 0} (read : List ℕ → Option (List ℕ) → D) (settle : Files → Files) (dest bk : String)
    (keeps : (fs : Files) → contents read dest (settle fs) ≡ contents read dest fs)
    (main shm wal : List ℕ) (files : Files) (busy : List ℕ) (later : List (Result ℕ))
    → Elsewhere dest bk
    → HasFiles bk main shm wal files
    → All (λ n. n ≢ 0) busy
    → (after : Files) × (restore_from
          (whole_restore settle (map ok busy ++ ok 0 ∷ later))
          dest
          bk
          files
        ≡ some (ok tt, after))
      × (contents read dest after ≡ contents read bk files)
restore_from-contents read settle dest bk keeps main shm wal files busy later e h b =
    let copies = three_copies dest main shm wal files in
    (
      settle copies,
      restored settle (map ok busy ++ ok 0 ∷ later) dest bk main shm wal files e h
          (perform_checkpoint-busy busy later b),
      keeps copies
          ∙ contents-HasFiles read dest main shm wal copies
              (three_copies-HasFiles dest main shm wal files)
          ∙ sym (contents-HasFiles read bk main shm wal files h),
    )
