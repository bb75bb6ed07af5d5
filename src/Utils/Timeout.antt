-- ===== src/Utils/Timeout.antt =====
-- utils/timeout.go: a ticker that events put off. `time.Ticker` is outside the repository: it is the
-- parameter `Ticker`, with what Go documents of its first tick.
use harmonylite.Prelude.{
  All, ℕ, ◌+◌, ◌≤◌, ◌<◌, ◌≡◌, refl, sym, subst, inl, inr, Bool, true, false, Option, none, some,
  List, [], ◌∷◌, arith, ◌==◌, if◌then◌else◌, Bool-cases,
}

-- `has_tick` tells at a time whether a tick waits in the channel.
pub record Ticker (T : Type 0) : Type 0 where
  pub new_ticker : ℕ → ℕ → T
  pub reset : ℕ → ℕ → T → T
  pub stop : T → T
  pub has_tick : ℕ → T → Bool
  pub new_ticker_waits : (now d t : ℕ) → has_tick t (new_ticker now d) ≡ true → now + d ≤ t
  -- `Reset` after no tick was sent: the next tick comes after the new period.
  pub reset_waits :
      (now d t : ℕ) (x : T)
      → has_tick now x ≡ false
      → has_tick t (reset now d x) ≡ true
      → now + d ≤ t

-- A ticker of `none` is nil; the channel that stands for it is never written.
pub record TimeoutPublisher (T : Type 0) : Type 0 where
  pub duration : ℕ
  pub ticker : Option T

module _ {T : Type 0} (clock : Ticker T) where
  unfoldable pub new_timeout_publisher : ℕ → ℕ → TimeoutPublisher T
  new_timeout_publisher now duration =
      if duration == 0
      then record { duration = duration; ticker = none }
      else record { duration = duration; ticker = some (clock.new_ticker now duration) }

  unfoldable pub reset : ℕ → TimeoutPublisher T → TimeoutPublisher T
  reset now p = elim p.ticker [
    | none ↦ p
    | some x ↦ record p { ticker = some (clock.reset now p.duration x) }
  ]

  unfoldable pub stop : TimeoutPublisher T → TimeoutPublisher T
  stop p = elim p.ticker [ none ↦ p | some x ↦ record p { ticker = some (clock.stop x) } ]

  -- Whether `Channel()` has something to receive.
  unfoldable pub receives : ℕ → TimeoutPublisher T → Bool
  receives now p = elim p.ticker [ none ↦ false | some x ↦ clock.has_tick now x ]

  -- The life of a timer of `AutoResetEventTimer`: an event of its name resets it, and the loop looks
  -- at its channel.
  pub data Moment : Type 0 where
    event look : ℕ → Moment

  unfoldable pub auto_reset : List Moment → TimeoutPublisher T → List Bool
  unfolding reset receives
  auto_reset [] p = []
  auto_reset (event now ∷ ms) p = auto_reset ms (reset now p)
  auto_reset (look now ∷ ms) p = receives now p ∷ auto_reset ms p

  -- Each moment comes less than the duration after the last event.
  abbrev pub AreInTime : ℕ → ℕ → List Moment → Type 0
  AreInTime duration last [] = Unit
  AreInTime duration last (event now ∷ ms) = (now < last + duration) × AreInTime duration now ms
  AreInTime duration last (look now ∷ ms) = (now < last + duration) × AreInTime duration last ms

  -- The timer sends nothing less than its duration after the time.
  abbrev Waits : ℕ → TimeoutPublisher T → Type 0
  Waits last p = (t : ℕ) → t < last + p.duration → receives t p ≡ false

  reset-Waits :
      (last now : ℕ) (p : TimeoutPublisher T)
      → Waits last p
      → now < last + p.duration
      → ((reset now p).duration ≡ p.duration) × Waits now (reset now p)
  unfolding reset receives
  reset-Waits last now p w h = by_ticker p.ticker (w now h)
    where
      timer : Option T → TimeoutPublisher T
      timer x = record { duration = p.duration; ticker = x }

      by_ticker :
          (x : Option T)
          → receives now (timer x) ≡ false
          → ((reset now (timer x)).duration ≡ p.duration) × Waits now (reset now (timer x))
      by_ticker none e = (refl, λ t lt. refl)
      by_ticker (some y) e = (
        refl,
        λ t lt. elim (Bool-cases (clock.has_tick t (clock.reset now p.duration y))) [
          | inl sent ↦ absurd (omega (arith, clock.reset_waits now p.duration t y e sent))
          | inr silent ↦ silent
        ],
      )

  auto_reset-silent :
      (last : ℕ) (ms : List Moment) (p : TimeoutPublisher T)
      → Waits last p
      → AreInTime p.duration last ms
      → All (λ b. b ≡ false) (auto_reset ms p)
  unfolding auto_reset
  auto_reset-silent last [] p w h = tt
  auto_reset-silent last (event now ∷ ms) p w (h, hs) =
      let (same, w') = reset-Waits last now p w h in
      auto_reset-silent now ms (reset now p) w' (subst (λ d. AreInTime d now ms) (sym same) hs)
  auto_reset-silent last (look now ∷ ms) p w (h, hs) = (w now h, auto_reset-silent last ms p w hs)

  new-Waits :
      (now duration : ℕ)
      → Waits now (new_timeout_publisher now duration)
        × ((new_timeout_publisher now duration).duration ≡ duration)
  unfolding new_timeout_publisher receives
  new-Waits now duration = elim (Bool-cases (duration == 0)) [
    | inl e ↦ rw e ((λ t lt. refl), refl)
    | inr e ↦ rw e (
      (λ t lt. elim (Bool-cases (clock.has_tick t (clock.new_ticker now duration))) [
        | inl sent ↦ absurd (omega (arith, clock.new_ticker_waits now duration t sent))
        | inr silent ↦ silent
      ]),
      refl,
    )
  ]

  -- A node whose pulses come less than the sleep timeout apart is never told to sleep: if each event,
  -- and each look at the timer's channel, comes less than the duration after the last event, or after
  -- the start, nothing is received.
  pub pulses_keep_awake :
      (start duration : ℕ) (ms : List Moment)
      → AreInTime duration start ms
      → All (λ b. b ≡ false) (auto_reset ms (new_timeout_publisher start duration))
  pulses_keep_awake start duration ms h =
      let (w, same) = new-Waits start duration in
      auto_reset-silent start ms (new_timeout_publisher start duration) w
        (subst (λ d. AreInTime d start ms) (sym same) h)

  receives-none : (now : ℕ) (p : TimeoutPublisher T) → p.ticker ≡ none → receives now p ≡ false
  unfolding receives
  receives-none now p e = rw e refl

  reset-none : (now : ℕ) (p : TimeoutPublisher T) → p.ticker ≡ none → reset now p ≡ p
  unfolding reset
  reset-none now p e = rw e refl

  auto_reset-none :
      (ms : List Moment) (p : TimeoutPublisher T)
      → p.ticker ≡ none
      → All (λ b. b ≡ false) (auto_reset ms p)
  unfolding auto_reset
  auto_reset-none [] p e = tt
  auto_reset-none (event now ∷ ms) p e = rw (reset-none now p e) (auto_reset-none ms p e)
  auto_reset-none (look now ∷ ms) p e = (receives-none now p e, auto_reset-none ms p e)

  -- With a timeout of 0 a node never sleeps.
  pub no_timeout :
      (start : ℕ) (ms : List Moment)
      → All (λ b. b ≡ false) (auto_reset ms (new_timeout_publisher start 0))
  unfolding new_timeout_publisher
  no_timeout start ms = auto_reset-none ms _ refl
