-- ===== src/Stream/Connect.antt =====
-- stream/nats.go and `prepareConnection` of stream/embedded_nats.go: the connection to NATS, which is
-- a number here. What the client library answers is an argument; the options are left out.
use harmonylite.Prelude.{
  ℕ, zero, suc, ◌+◌, ◌≤◌, ◌<◌, String, ◌≡◌, ap, ◌∙◌, Bool, true, false, Option, none, some, List,
  [], ◌∷◌, arith, if◌then◌else◌, Result, Outcome, ok, err,
}
use harmonylite.Prelude.Results.{exited}

-- What an attempt gives: a connection and whether it is connected, or an error without a connection.
abbrev pub Attempt : Type 0
Attempt = Result (ℕ × Bool)

-- The loop over the attempts. Logging a failed one reads the status of the connection, which is nil
-- after an error.
unfoldable pub connect_loop : (ℕ → Attempt) → ℕ → ℕ → Option ℕ → Result (Option ℕ)
connect_loop attempt i zero conn = ok conn
connect_loop attempt i (suc left) conn = elim (attempt i) [
  | err e ↦ err exited
  | ok a ↦
      let rest = connect_loop attempt (suc i) left (some a.0) in if a.1 then ok (some a.0) else rest
]

-- What the embedded server and its client answer in one turn of the loop that waits for streams.
pub record Turn : Type 0 where
  pub connected : Result ℕ
  pub jet_stream : Outcome
  -- `ErrStreamNotFound`, or information on the stream.
  pub is_answered : Bool

-- The loops of the code have no bound: here they end with the answers, which stands for a loop that
-- goes on.
unfoldable pub wait_for_streams : List Turn → Option (Result ℕ)
wait_for_streams [] = none
wait_for_streams (t ∷ turns) =
    let rest = wait_for_streams turns in
    elim t.connected [
      | err e ↦ rest
      | ok c ↦ elim t.jet_stream [
        | err e ↦ some (err e)
        | ok _ ↦ if t.is_answered then some (ok c) else rest
      ]
    ]

unfoldable pub wait_until_ready : List Bool → List Turn → Option (Result ℕ)
unfolding wait_for_streams
wait_until_ready [] turns = none
wait_until_ready (true ∷ ready) turns = wait_for_streams turns
wait_until_ready (false ∷ ready) turns = wait_until_ready ready turns

abbrev some_connection : Result ℕ → Result (Option ℕ)
some_connection (err e) = err e
some_connection (ok c) = ok (some c)

embedded_connection : Option (Result ℕ) → Option (Result (Option ℕ))
embedded_connection none = none
embedded_connection (some r) = some (some_connection r)

-- `Connect`. `options` are the credentials and certificates; `none` is a call that does not return,
-- and `ok none` a nil connection without an error.
unfoldable pub connect :
    Outcome
    → List String
    → Outcome
    → List Bool
    → List Turn
    → (ℕ → Attempt)
    → ℕ
    → Option (Result (Option ℕ))
unfolding connect_loop embedded_connection wait_until_ready
connect options urls start ready turns attempt retries = elim options [
  | err e ↦ some (err e)
  | ok _ ↦ elim urls [
    | [] ↦ elim start [
      | err e ↦ some (err e)
      | ok _ ↦ embedded_connection (wait_until_ready ready turns)
    ]
    | u ∷ us ↦ some (connect_loop attempt 0 retries none)
  ]
]

connect_loop-first :
    (attempt : ℕ → Attempt) (n i left c : ℕ) (conn : Option ℕ)
    → ((j : ℕ) → i ≤ j → j < i + n → (d : ℕ) × (attempt j ≡ ok (d, false)))
    → attempt (i + n) ≡ ok (c, true)
    → n < left
    → connect_loop attempt i left conn ≡ ok (some c)
unfolding connect_loop
connect_loop-first attempt zero i (suc left) c conn early h le = ground arith
connect_loop-first attempt (suc n) i (suc left) c conn early h le =
    let (d, e) = early i (omega arith) (omega arith) in
    let later =
      connect_loop-first attempt n (suc i) left c (some d)
        (λ j a b. early j (omega arith) (omega arith)) (ap attempt (omega arith) ∙ h)
        (omega arith) in
    ground (arith, later)
connect_loop-first attempt n i zero c conn early h le = absurd (omega arith)

-- Where servers are configured and the options can be made, the result is the connection of the first
-- attempt that is connected, if it is among the configured number of attempts, and those before it
-- gave connections that are not connected yet.
pub connect-first :
    (u : String) (us : List String) (start : Outcome) (ready : List Bool) (turns : List Turn)
    (attempt : ℕ → Attempt) (retries n c : ℕ)
    → ((j : ℕ) → j < n → (d : ℕ) × (attempt j ≡ ok (d, false)))
    → attempt n ≡ ok (c, true)
    → n < retries
    → connect (ok tt) (u ∷ us) start ready turns attempt retries ≡ some (ok (some c))
unfolding connect
connect-first u us start ready turns attempt retries n c early h le = ap some (
    connect_loop-first attempt n 0 retries c none (λ j _ b. early j (omega arith))
      (ap attempt (omega arith) ∙ h) le)
