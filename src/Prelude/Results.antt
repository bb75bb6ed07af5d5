-- ===== src/Prelude/Results.antt =====
-- Go's `error` values and the pair `(T, error)`. `external` is an error that code outside the
-- repository returns, with a tag that tells such errors apart.
use Prim.Native.Nat.{ℕ}
use mathlib.Core.Path.{◌≡◌, refl}
use mathlib.Core.Logic.{◌⊎◌, inl, inr}

pub data Err : Type 0 where
  not_initialized canceled log_not_ready no_table_mapping end_of_watch : Err
  invalid_operation table_not_found invalid_table wrong_pool : Err
  pending_snapshot no_snapshot_found invalid_storage_type required_parameter_missing : Err
  registry_missing key_not_found : Err
  -- `log.Fatal`, `log.Panic` or a run-time panic: the process ends.
  exited : Err
  external : ℕ → Err

pub data Result {ℓ} (A : Type ℓ) : Type ℓ where
  ok : A → Result A
  err : Err → Result A

-- The next step runs on a value; an error is passed on.
abbrev pub ◌>>=◌ {ℓ ℓ'} : {V : Type ℓ} {W : Type ℓ'} → Result V → (V → Result W) → Result W
err failure >>= next = err failure
ok value >>= next = next value

abbrev pub ◌>>◌ {ℓ} : {W : Type ℓ} → Result (Unit {0}) → Result W → Result W
step >> rest = step >>= λ u. rest

infixl 5 ◌>>=◌ ◌>>◌
-- A bare `error`: `nil` is `ok tt`.
abbrev pub Outcome : Type 0
Outcome = Result (Unit {0})

-- To split on a computed result and keep the equation.
pub Result-cases {ℓ} :
    {A : Type ℓ} (r : Result A) → ((e : Err) × (r ≡ err e)) ⊎ ((a : A) × (r ≡ ok a))
Result-cases (err e) = inl (e, refl)
Result-cases (ok a) = inr (a, refl)
