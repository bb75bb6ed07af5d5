-- ===== src/Tests/Stores.antt =====
-- A key-value bucket and an object store with the laws that the development relies on.
use harmonylite.Prelude.{
  ℕ, suc, ◌≡◌, refl, ◌≢◌, Bool, true, false, Option, none, some, List, arith, ◌==◌, if◌then◌else◌,
  Err, Result, Outcome, invalid_operation, key_not_found, ok, err, string_eq, nat_eq,
}
use harmonylite.Logstream.MetaStore.{Bucket}
use harmonylite.Snapshot.{ObjectStore, content, not_found, Fetched}

-- A bucket with one key: its value and revision, and the next revision less one.
abbrev pub OneKey : Type 0
OneKey = Option (List ℕ × ℕ) × ℕ

abbrev pub create_key : List ℕ → OneKey → Result ℕ × OneKey
create_key v (none, n) = (ok (suc n), (some (v, suc n), suc n))
create_key v (some e, n) = (err invalid_operation, (some e, n))

abbrev pub update_key : List ℕ → ℕ → OneKey → Result ℕ × OneKey
update_key v r (none, n) = (err key_not_found, (none, n))
update_key v r (some (w, m), n) =
    if m == r
    then (ok (suc n), (some (v, suc n), suc n))
    else (err invalid_operation, (some (w, m), n))

pub create_there_key :
    (v w : List ℕ) (r : ℕ) (s : OneKey)
    → ok s.0 ≡ ok (some (v, r))
    → (e : Err) × (create_key w s ≡ (err e, s))
create_there_key v w r (none, n) h = absurd (no_entry h)
  where
    no_entry : ¬ (◌≡◌ {A = Result (Option (List ℕ × ℕ))} (ok none) (ok (some (v, r))))
    no_entry q = cc
create_there_key v w r (some e, n) h = (invalid_operation, refl)

pub update_other_key :
    (v w : List ℕ) (r m : ℕ) (s : OneKey)
    → ok s.0 ≡ ok (some (v, r))
    → m ≢ r
    → (e : Err) × (update_key w m s ≡ (err e, s))
update_other_key v w r m (none, n) h d = (key_not_found, refl)
update_other_key v w r m (some (u, k), n) h d = (invalid_operation, ground arith)

pub get-create_key :
    (v : List ℕ) (r : ℕ) (s : OneKey)
    → (create_key v s).0 ≡ ok r
    → ok (create_key v s).1.0 ≡ ok (some (v, r))
get-create_key v r (none, n) h = ground arith
get-create_key v r (some e, n) h = cc

pub get-update_key :
    (v : List ℕ) (m r : ℕ) (s : OneKey)
    → (update_key v m s).0 ≡ ok r
    → ok (update_key v m s).1.0 ≡ ok (some (v, r))
get-update_key v m r (none, n) h = cc
get-update_key v m r (some (w, k), n) h = ground arith

abbrev pub toy_bucket : Bucket OneKey
toy_bucket = record {
  get = λ k s. ok s.0;
  create = λ k v s. create_key v s;
  update = λ k v r s. update_key v r s;
  create_there = λ k v w r s h. create_there_key v w r s h;
  update_other = λ k v w r m s h d. update_other_key v w r m s h d;
  get-create = λ k v r s h. get-create_key v r s h;
  get-update = λ k v m r s h. get-update_key v m r s h;
}

-- An object store: its object, and whether it accepts writes.
abbrev pub OneObject : Type 0
OneObject = Fetched × Bool

abbrev pub put_object : List ℕ → OneObject → Outcome × OneObject
put_object b (x, true) = (ok tt, (content b, true))
put_object b (x, false) = (err invalid_operation, (x, false))

pub put_failed_object :
    (b : List ℕ) (s : OneObject) (e : Err) → (put_object b s).0 ≡ err e → (put_object b s).1.0 ≡ s.0
put_failed_object b (x, true) e h = cc
put_failed_object b (x, false) e h = refl

pub get-put_object :
    (b : List ℕ) (s : OneObject) → (put_object b s).0 ≡ ok tt → (put_object b s).1.0 ≡ content b
get-put_object b (x, true) h = refl
get-put_object b (x, false) h = cc

abbrev pub toy_store : ObjectStore OneObject
toy_store = record {
  delete = λ s. (ok tt, (not_found, s.1));
  put = put_object;
  get_file = λ s. s.0;
  get-delete = λ s h. refl;
  put_failed = put_failed_object;
  get-put = get-put_object;
}
