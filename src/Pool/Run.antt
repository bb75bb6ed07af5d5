-- ===== src/Pool/Run.antt =====
-- Every state that the pool of pool/connection_pool.go can reach.
use harmonylite.Prelude.{
  length, All, ℕ, suc, ◌+◌, ◌≡◌, refl, ap, ◌∙◌, subst, Bool, some, List, [], ◌∷◌, ◌++◌, arith, Err,
  Result, ◌>>=◌, ok, err,
}
use harmonylite.Pool.{SqliteConnection, SqlitePool, borrow, dispose, new_sqlite_pool, fill}
use harmonylite.Pool.Ownership.{
  IsOpen, IsValid, Borrowed, Made, borrow-IsValid, dispose-IsValid, new_pool-Made,
}

-- The pool, and the connections that are lent out, after borrowings and returns in any order.
pub data Reaches (start : SqlitePool) : SqlitePool → List SqliteConnection → Type 0 where
  new : Reaches start start []
  lends :
      (open_raw : Result ℕ) (c : SqliteConnection) (q q' : SqlitePool)
      (lent : List SqliteConnection)
      → Reaches start q lent
      → borrow open_raw q ≡ some (ok c, q')
      → Reaches start q' (c ∷ lent)
  opening_fails :
      (open_raw : Result ℕ) (e : Err) (q q' : SqlitePool) (lent : List SqliteConnection)
      → Reaches start q lent
      → borrow open_raw q ≡ some (err e, q')
      → Reaches start q' lent
  returned :
      (c : SqliteConnection) (q : SqlitePool) (before later : List SqliteConnection)
      → Reaches start q (before ++ c ∷ later)
      → Reaches start (dispose c q).1 (before ++ later)

-- The pool has its size, and what is lent out is open and the pool's own.
abbrev pub IsKept : ℕ → ℕ → SqlitePool → List SqliteConnection → Type 0
IsKept id size q lent = (q.id ≡ id) × IsValid size (length lent) q × All (IsOpen id) lent

split-All :
    (P : SqliteConnection → Type 0) (before : List SqliteConnection) (c : SqliteConnection)
    (later : List SqliteConnection)
    → All P (before ++ c ∷ later)
    → P c × All P (before ++ later)
split-All P [] c later h = h
split-All P (b ∷ before) c later h =
    let (p, rest) = split-All P before c later h.1 in (p, (h.0, rest))

length-split :
    (before : List SqliteConnection) (c : SqliteConnection) (later : List SqliteConnection)
    → length (before ++ c ∷ later) ≡ suc (length (before ++ later))
length-split [] c later = refl
length-split (b ∷ before) c later = ap suc (length-split before c later)

dispose-id : (c : SqliteConnection) (q : SqlitePool) → (dispose c q).1.id ≡ q.id
unfolding dispose
dispose-id c q = ground arith

module _ (id size : ℕ) (start : SqlitePool) (own_id : start.id ≡ id)
    (valid : IsValid size 0 start) where
  reach_keeps :
      (q : SqlitePool) (lent : List SqliteConnection) → Reaches start q lent → IsKept id size q lent
  reach_keeps q lent new = (own_id, valid, tt)
  reach_keeps q' lent' (lends open_raw c q q'' lent r e) =
      let (same, v, o) = reach_keeps q lent r in
      let (v', same', open_now) =
        subst (Borrowed size (length lent) q) e (borrow-IsValid open_raw size (length lent) q v) in
      (same' ∙ same, v', (rw (← same) open_now, o))
  reach_keeps q' lent' (opening_fails open_raw x q q'' lent r e) =
      let (same, v, o) = reach_keeps q lent r in
      let (v', same') =
        subst (Borrowed size (length lent) q) e (borrow-IsValid open_raw size (length lent) q v) in
      (same' ∙ same, v', o)
  reach_keeps q' lent' (returned c q before later r) =
      let (same, v, o) = reach_keeps q (before ++ c ∷ later) r in
      let (o_c, o_rest) = split-All (IsOpen id) before c later o in
      let (taken, v') =
        dispose-IsValid size (length (before ++ later)) c q (rw (← length-split before c later) v)
          (rw same o_c) in
      (dispose-id c q ∙ same, v', o_rest)

new_pool-id :
    (opens : ℕ → Result ℕ) (id pool_size : ℕ) (lazy : Bool) (start : SqlitePool)
    → new_sqlite_pool opens id pool_size lazy ≡ ok start
    → start.id ≡ id
unfolding new_sqlite_pool
new_pool-id opens id pool_size lazy start h = by_filled (fill opens id lazy pool_size []) h
  where
    by_filled :
        (r : Result (List SqliteConnection))
        → (r >>= λ made. ok (record { id = id; connections = made })) ≡ ok start
        → start.id ≡ id
    by_filled (err e) k = cc
    by_filled (ok made) k = ground arith

-- However connections of a new pool are borrowed and returned, with openings that may fail: the
-- idle connections and those lent out are `pool_size` together, and those lent out are open and
-- the pool's own. The next borrowing blocks only where all of them are lent out; it gives an open
-- connection of the pool, or, if opening one fails, loses none.
pub new_pool_runs :
    (opens : ℕ → Result ℕ) (id pool_size : ℕ) (lazy : Bool) (start q : SqlitePool)
    (lent : List SqliteConnection) (open_raw : Result ℕ)
    → new_sqlite_pool opens id pool_size lazy ≡ ok start
    → Reaches start q lent
    → (length q.connections + length lent ≡ pool_size)
      × All (IsOpen id) lent
      × Borrowed pool_size (length lent) q (borrow open_raw q)
new_pool_runs opens id pool_size lazy start q lent open_raw made r =
    let (same, v, o) =
      reach_keeps id pool_size start (new_pool-id opens id pool_size lazy start made)
        (subst (Made opens lazy pool_size) made (new_pool-Made opens id pool_size lazy)) q lent r in
    (v.count, o, borrow-IsValid open_raw pool_size (length lent) q v)
