-- ===== src/Logstream/MetaStore/Refreshing.antt =====
-- `ContextRefreshingLease` of logstream/replicator_meta_store.go: the goroutine that renews a lease by
-- `AcquireLease`. What other nodes attempt before a turn is part of the turn.
pub mod Kept
use harmonylite.Prelude.{ℕ, String, Bool, true, false, List, [], ◌∷◌, ◌++◌, Err, Result, ok, err}
use harmonylite.Logstream.MetaStore.{Bucket, LeaseCodec, acquire_lease}

-- An attempt of another node: its time, and the bucket as it reads it.
pub record Rival (S : Type 0) : Type 0 where
  pub node_id : ℕ
  pub now : ℕ
  pub before : S

-- A turn of the loop: `is_done` says that the `select` takes `ctx.Done()`, and not the ticker.
pub record Turn (S : Type 0) : Type 0 where
  pub rivals : List (Rival S)
  pub now : ℕ
  pub before : S
  pub is_done : Bool

-- How the goroutine stands: it never started, it goes on, it returned on an error, or on `Done`.
pub data Renewing : Type 0 where
  idle renewing ended : Renewing
  failed : Err → Renewing

module _ {S : Type 0} (bucket : Bucket S) (codec : LeaseCodec) (lease : String) (duration : ℕ) where
  unfoldable pub attempts : List (Rival S) → S → List (Result Bool) × S
  attempts [] s = ([], s)
  attempts (x ∷ xs) s =
      let (r, s') = acquire_lease bucket codec lease x.node_id duration x.now x.before s in
      let (rs, s'') = attempts xs s' in (r ∷ rs, s'')

  -- The loop, with the results of the other nodes' attempts. A lease that is not acquired is tried
  -- again at once.
  pub on_renewal :
      Bool
      → (S → List (Result Bool) × Renewing × S)
      → Result Bool × S
      → List (Result Bool) × Renewing × S
  on_renewal is_done next (err e, s) = ([], failed e, s)
  on_renewal is_done next (ok false, s) = next s
  on_renewal is_done next (ok true, s) = elim is_done [ true ↦ ([], ended, s) | false ↦ next s ]

  unfoldable pub renew : ℕ → List (Turn S) → S → List (Result Bool) × Renewing × S
  unfolding attempts on_renewal
  renew node_id [] s = ([], renewing, s)
  renew node_id (t ∷ ts) s =
      let (rs, s') = attempts t.rivals s in
      let (rest, how, s'') =
        on_renewal t.is_done (renew node_id ts)
          (acquire_lease bucket codec lease node_id duration t.now t.before s') in
      (rs ++ rest, how, s'')

  -- The goroutine renews only a lease that was acquired.
  pub refresh : ℕ → List (Turn S) → Result Bool × S → List (Result Bool) × Renewing × S
  refresh node_id ts (err e, s) = ([], idle, s)
  refresh node_id ts (ok false, s) = ([], idle, s)
  refresh node_id ts (ok true, s) = renew node_id ts s

  -- What the caller gets, and what follows.
  unfoldable pub context_refreshing_lease :
      ℕ → ℕ → S → List (Turn S) → S → Result Bool × (List (Result Bool) × Renewing × S)
  unfolding refresh renew
  context_refreshing_lease node_id now before ts s =
      let (locked, s') = acquire_lease bucket codec lease node_id duration now before s in
      (locked, refresh node_id ts (locked, s'))
