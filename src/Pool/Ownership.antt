-- ===== src/Pool/Ownership.antt =====
-- The connections of pool/connection_pool.go: which are idle, which are lent, and how many there are.
use harmonylite.Prelude.{
  length, length-append, All, All-append, ℕ, zero, suc, ◌+◌, ◌<◌, ◌≡◌, refl, sym, subst, ◌⊎◌, inl,
  inr, Bool, true, false, Option, none, some, List, [], ◌∷◌, ◌++◌, arith, if◌then◌else◌, Result,
  ◌>>=◌, Outcome, wrong_pool, ok, err,
}
use harmonylite.Pool.{
  SqliteConnection, SqlitePool, init, borrow, dispose, owns, fresh, fill, new_sqlite_pool,
}

-- A connection of the pool is unopened, or open and owned by the pool.
abbrev pub IsOwn : ℕ → SqliteConnection → Type 0
IsOwn id c =
    (c ≡ fresh) ⊎ ((c.state ≡ 1) × (c.disposer ≡ some id) × ((h : ℕ) × (c.handle ≡ some h)))

abbrev pub IsOpen : ℕ → SqliteConnection → Type 0
IsOpen id c = (c.state ≡ 1) × (c.disposer ≡ some id) × ((h : ℕ) × (c.handle ≡ some h))

-- All idle connections are the pool's, and with those lent out there are `size` of them.
pub record IsValid (size lent : ℕ) (q : SqlitePool) : Type 0 where
  pub own : All (IsOwn q.id) q.connections
  pub count : length q.connections + lent ≡ size

abbrev pub Borrowed : ℕ → ℕ → SqlitePool → Option (Result SqliteConnection × SqlitePool) → Type 0
Borrowed size lent q none = lent ≡ size
Borrowed size lent q (some (err e, q')) = IsValid size lent q' × (q'.id ≡ q.id)
Borrowed size lent q (some (ok c, q')) = IsValid size (suc lent) q' × (q'.id ≡ q.id) × IsOpen q.id c

init-IsOpen :
    (open_raw : Result ℕ) (id : ℕ) (c : SqliteConnection)
    → IsOwn id c
    → (init open_raw id c).0 ≡ ok tt
    → IsOpen id (init open_raw id c).1
unfolding init
init-IsOpen (err e) id c (inl f) h = absurd (subst (λ d. (init (err e) id d).0 ≡ ok tt) f h)
  where
    absurd : (init (err e) id fresh).0 ≡ ok tt → IsOpen id (init (err e) id c).1
    absurd k = cc
init-IsOpen (ok n) id c (inl f) h =
    subst (λ d. IsOpen id (init (ok n) id d).1) (sym f) (refl, refl, (n, refl))
init-IsOpen open_raw id c (inr o) h = subst (IsOpen id) (sym (kept o.0)) o
  where
    kept : c.state ≡ 1 → (init open_raw id c).1 ≡ c
    kept e = ground arith

-- A pool of `size` connections, `lent` of them lent out, blocks a borrower only when all are lent
-- out. Otherwise a borrowed connection is open and belongs to the pool, and an opening that fails
-- loses no connection: the next borrower can try again.
pub borrow-IsValid :
    (open_raw : Result ℕ) (size lent : ℕ) (q : SqlitePool)
    → IsValid size lent q
    → Borrowed size lent q (borrow open_raw q)
unfolding borrow init
borrow-IsValid open_raw size lent q v = by_idle q.connections v.own v.count
  where
    with_idle : List SqliteConnection → SqlitePool
    with_idle cs = record { id = q.id; connections = cs }

    by_result :
        (rest : List SqliteConnection) (c : SqliteConnection) (r : Outcome)
        → All (IsOwn q.id) rest
        → suc (length rest) + lent ≡ size
        → (r ≡ ok tt → IsOpen q.id c)
        → Borrowed size lent q (
            some (elim r [
              | err e ↦ (err e, with_idle (rest ++ fresh ∷ []))
              | ok _ ↦ (ok c, with_idle rest)
            ]))
    by_result rest c (err e) a k o = (
      record {
        own = All-append (IsOwn q.id) rest (fresh ∷ []) a (inl refl, tt);
        count = ground (arith, length-append rest (fresh ∷ []));
      },
      refl,
    )
    by_result rest c (ok u) a k o = (record { own = a; count = omega arith }, refl, o refl)

    by_idle :
        (cs : List SqliteConnection)
        → All (IsOwn q.id) cs
        → length cs + lent ≡ size
        → Borrowed size lent q (borrow open_raw (with_idle cs))
    by_idle [] a k = omega arith
    by_idle (c ∷ rest) a k =
        by_result rest (init open_raw q.id c).1 (init open_raw q.id c).0 a.1 k
          (init-IsOpen open_raw q.id c a.0)

-- A connection that was borrowed from the pool is accepted back, and the pool then has one more
-- idle connection and one fewer lent out.
pub dispose-IsValid :
    (size lent : ℕ) (c : SqliteConnection) (q : SqlitePool)
    → IsValid size (suc lent) q
    → IsOpen q.id c
    → ((dispose c q).0 ≡ ok tt) × IsValid size lent (dispose c q).1
unfolding dispose
dispose-IsValid size lent c q v o = by_owner (owns q.id c.disposer) owner
  where
    owner : owns q.id c.disposer ≡ true
    owner = ground (arith, o.1)

    by_owner :
        (b : Bool)
        → b ≡ true
        → let x : Outcome × SqlitePool =
            if b
            then (ok tt, record q { connections = q.connections ++ c ∷ [] })
            else (err wrong_pool, q) in
          (x.0 ≡ ok tt) × IsValid size lent x.1
    by_owner true h = (
      refl,
      record {
        own = All-append (IsOwn q.id) q.connections (c ∷ []) v.own (inr o, tt);
        count = ground (arith, v.count, length-append q.connections (c ∷ []));
      },
    )
    by_owner false h = cc

-- What `NewSQLitePool` promises of its result.
abbrev Filled : (ℕ → Result ℕ) → ℕ → Bool → ℕ → Result (List SqliteConnection) → Type 0
Filled opens id lazy size (err e) = (lazy ≡ false) × ((k : ℕ) × (k < size) × (opens k ≡ err e))
Filled opens id lazy size (ok cs) = All (IsOwn id) cs × (length cs ≡ size)

module _ (opens : ℕ → Result ℕ) (id size : ℕ) where
  fill-Filled :
      (left : ℕ) (lazy : Bool) (made : List SqliteConnection)
      → left + length made ≡ size
      → All (IsOwn id) made
      → Filled opens id lazy size (fill opens id lazy left made)
  unfolding fill
  fill-Filled zero lazy made k a = (a, omega arith)
  fill-Filled (suc left) true made k a =
      fill-Filled left true (made ++ fresh ∷ []) (omega (arith, length-append made (fresh ∷ [])))
        (All-append (IsOwn id) made (fresh ∷ []) a (inl refl, tt))
  fill-Filled (suc left) false made k a = by_result (opens (length made)) refl (λ con o.
      fill-Filled left false (made ++ con ∷ []) (omega (arith, length-append made (con ∷ [])))
        (All-append (IsOwn id) made (con ∷ []) a (inr o, tt)))
    where
      by_result :
          (r : Result ℕ)
          → opens (length made) ≡ r
          → ((con : SqliteConnection)
              → IsOpen id con
              → Filled opens id false size (fill opens id false left (made ++ con ∷ [])))
          → Filled opens id false size (
              let (x, con) = init r id fresh in
              elim x [ err e ↦ err e | ok _ ↦ fill opens id false left (made ++ con ∷ []) ])
      by_result (err e) q f = (refl, (length made, omega arith, q))
      by_result (ok n) q f = f (init (ok n) id fresh).1 (refl, refl, (n, refl))

abbrev pub Made : (ℕ → Result ℕ) → Bool → ℕ → Result SqlitePool → Type 0
Made opens lazy size (err e) = (lazy ≡ false) × ((k : ℕ) × (k < size) × (opens k ≡ err e))
Made opens lazy size (ok q) = IsValid size 0 q

-- A new pool has `pool_size` idle connections, each unopened or open and its own. Making it fails
-- only if the connections are opened at once and opening one of them fails, with that error.
pub new_pool-Made :
    (opens : ℕ → Result ℕ) (id pool_size : ℕ) (lazy : Bool)
    → Made opens lazy pool_size (new_sqlite_pool opens id pool_size lazy)
unfolding new_sqlite_pool
new_pool-Made opens id pool_size lazy =
    by_filled (fill opens id lazy pool_size [])
      (fill-Filled opens id pool_size pool_size lazy [] (omega arith) tt)
  where
    by_filled :
        (r : Result (List SqliteConnection))
        → Filled opens id lazy pool_size r
        → Made opens lazy pool_size (r >>= λ made. ok (record { id = id; connections = made }))
    by_filled (err e) f = f
    by_filled (ok cs) f = record { own = f.0; count = omega (arith, f.1) }
