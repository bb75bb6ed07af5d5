-- ===== src/Node/Start/Listening.antt =====
-- Which calls have passed where a listener is started by a list of calls.
use harmonylite.Prelude.{
  ℕ, zero, suc, ◌+◌, ◌≤◌, ◌<◌, ◌≡◌, refl, sym, subst, ◌≢◌, ◌⊎◌, inl, inr, Bool, true, false, List,
  [], ◌∷◌, ◌++◌, arith, Outcome, ok, err,
}
use harmonylite.Node.Start.{
  Action, OnFail, Call, Finish, call, only_if, listeners, make_calls, listen, returns, panics,
  goes_on, returned, panicked,
}

-- A listener for the shard was started.
abbrev pub Listens : ℕ → List Action → Type 0
Listens k [] = ⊥
Listens k (a ∷ rest) = (a ≡ listen k) ⊎ Listens k rest

-- The call succeeded, or its failure is passed over.
abbrev pub Passed : (Action → Outcome) → Call → Type 0
Passed result c = (c.on_fail ≡ goes_on) ⊎ (result c.action ≡ ok tt)

-- The actions happen in this order, with others before, between and after them.
abbrev pub InOrder : List Action → List Action → Type 0
InOrder [] trace = Unit {0}
InOrder (a ∷ acts) [] = ⊥
InOrder (a ∷ acts) (b ∷ trace) = ((a ≡ b) × InOrder acts trace) ⊎ InOrder (a ∷ acts) trace

InOrder-cons :
    (acts : List Action) (b : Action) (trace : List Action)
    → InOrder acts trace
    → InOrder acts (b ∷ trace)
InOrder-cons [] b trace h = tt
InOrder-cons (a ∷ acts) b trace h = inr h

-- The trace goes on with the later one.
abbrev pub Extends : List Action → List Action → Type 0
Extends later trace = (acts : List Action) → InOrder acts later → InOrder acts trace

-- The trace is the action, and then the later one.
abbrev pub Starts : Action → List Action → List Action → Type 0
Starts a later trace =
    Extends later trace × ((acts : List Action) → InOrder acts later → InOrder (a ∷ acts) trace)

Starts-cons : (a : Action) (later : List Action) → Starts a later (a ∷ later)
Starts-cons a later = ((λ acts. InOrder-cons acts a later), (λ acts h. inl (refl, h)))

module _ (result : Action → Outcome) (k : ℕ) (end : Finish) where
  abbrev trace_of : List Call → List Action
  trace_of cs = (make_calls result cs end).0

  -- A listener that is started by a list of calls is started by the later ones, after the first has
  -- passed, if the first starts none.
  pub Listens-call :
      (c : Call) (cs : List Call)
      → c.action ≢ listen k
      → Listens k (make_calls result (c ∷ cs) end).0
      → Passed result c
        × Listens k (trace_of cs)
        × Starts c.action (trace_of cs) (trace_of (c ∷ cs))
  unfolding make_calls
  Listens-call c cs ne h = by_result (result c.action) c.on_fail refl refl h
    where
      Made : Outcome → OnFail → List Action
      Made x f =
          (elim x as (λ _. List Action × Finish) [
            | ok _ ↦ (c.action ∷ (make_calls result cs end).0, (make_calls result cs end).1)
            | err e ↦ elim f as (λ _. List Action × Finish) [
              | goes_on ↦ (c.action ∷ (make_calls result cs end).0, (make_calls result cs end).1)
              | returns ↦ (c.action ∷ [], returned)
              | panics ↦ (c.action ∷ [], panicked)
            ]
          ]).0

      by_result :
          (x : Outcome) (f : OnFail)
          → result c.action ≡ x
          → c.on_fail ≡ f
          → Listens k (Made x f)
          → Passed result c × Listens k (trace_of cs) × Starts c.action (trace_of cs) (Made x f)
      by_result (ok u) f e g (inl q) = absurd (ne q)
      by_result (ok u) f e g (inr h) = (inr e, h, Starts-cons c.action (trace_of cs))
      by_result (err y) goes_on e g (inl q) = absurd (ne q)
      by_result (err y) goes_on e g (inr h) = (inl g, h, Starts-cons c.action (trace_of cs))
      by_result (err y) returns e g (inl q) = absurd (ne q)
      by_result (err y) returns e g (inr h) = absurd h
      by_result (err y) panics e g (inl q) = absurd (ne q)
      by_result (err y) panics e g (inr h) = absurd h

  pub Listens-only_if :
      (b : Bool) (c : Call) (cs : List Call)
      → c.action ≢ listen k
      → Listens k (trace_of (only_if b c ++ cs))
      → Listens k (trace_of cs) × Extends (trace_of cs) (trace_of (only_if b c ++ cs))
  Listens-only_if false c cs ne h = (h, λ acts x. x)
  Listens-only_if true c cs ne h = let (_, rest, go) = Listens-call c cs ne h in (rest, go.0)

  -- What was started is in the trace.
  pub Listens-InOrder : (trace : List Action) → Listens k trace → InOrder (listen k ∷ []) trace
  Listens-InOrder [] h = h
  Listens-InOrder (a ∷ trace) (inl e) = inl (sym e, tt)
  Listens-InOrder (a ∷ trace) (inr h) = inr (Listens-InOrder trace h)

  call_goes_on :
      (a : Action) (cs : List Call)
      → make_calls result (call a goes_on ∷ cs) end
        ≡ (a ∷ (make_calls result cs end).0, (make_calls result cs end).1)
  unfolding make_calls
  call_goes_on a cs = ground arith

  pub Listens-listeners :
      (left i : ℕ)
      → Listens k (make_calls result (listeners i left) end).0
      → (i < k) × (k ≤ i + left)
  unfolding listeners make_calls
  Listens-listeners zero i h = absurd h
  Listens-listeners (suc left) i h =
      elim (subst (λ (r : List Action × Finish). Listens k r.0)
        (call_goes_on (listen (suc i)) (listeners (suc i) left)) h) [
          | inl e ↦ (ground arith, ground arith)
          | inr rest ↦
              let (a, b) = Listens-listeners left (suc i) rest in (omega arith, omega arith)
        ]

  pub must_pass : (c : Call) → c.on_fail ≢ goes_on → Passed result c → result c.action ≡ ok tt
  must_pass c ne (inl e) = absurd (ne e)
  must_pass c ne (inr h) = h

  -- A call that ends its list starts no listener.
  pub no_listener :
      (c : Call) → c.action ≢ listen k → ¬ Listens k (make_calls result (c ∷ []) end).0
  unfolding make_calls
  no_listener c ne h = (Listens-call c [] ne h).1
