-- ===== src/Health/Check.antt =====
-- When the node of health/http.go reports that it is healthy.
use harmonylite.Prelude.{
  ◌≐◌, ℕ, ◌<◌, String, ◌≡◌, refl, ◌↔◌, Bool, true, false, ◌&&◌, Option, none, some, arith, ltb,
  if◌then◌else◌, Result, Outcome, ok, err, string_eq, nat_eq,
}
use harmonylite.Health.{
  DbAnswers, NatsAnswers, handle_health_check, check, is_connected, are_cdc_hooks_installed,
  succeeds,
}

abbrev pub HasSome : Result ℕ → Type 0
HasSome (err e) = ⊥
HasSome (ok n) = 0 < n

-- The database and NATS have checkers, and all their checks pass.
abbrev pub IsUp : Option DbAnswers → Option NatsAnswers → Type 0
IsUp (some d) (some n) =
    (d.has_pool ≡ true)
    × (d.borrowed ≡ ok tt)
    × (d.select_one ≡ ok tt)
    × HasSome d.trigger_count
    × (n.has_client ≡ true)
    × (n.is_up ≡ true)
IsUp _ _ = ⊥

succeeds_iff : (r : Outcome) → (succeeds r ≡ true) ↔ (r ≡ ok tt)
unfolding succeeds
succeeds_iff (err e) = ((λ h. cc), (λ h. cc))
succeeds_iff (ok tt) = ((λ _. refl), (λ _. refl))

HasSome-iff :
    (r : Result ℕ)
    → ((let b : Bool = elim r [ err e ↦ false | ok n ↦ ltb 0 n ] in b) ≡ true) ↔ HasSome r
HasSome-iff (err e) = ((λ h. cc), (λ h. elim h [ ]))
HasSome-iff (ok n) = ground arith

-- The answer's code from the three tests.
abbrev code_of : Bool → Bool → Bool → ℕ
code_of a b c =
    let t : String = if a && b && c then "healthy" else "unhealthy" in
    if t ≐ "healthy" then 200 else 503

no_code : ¬ (◌≡◌ {A = ℕ} 503 200)
no_code h = omega arith

code_of_iff : (a b c : Bool) → (code_of a b c ≡ 200) ↔ ((a ≡ true) × (b ≡ true) × (c ≡ true))
code_of_iff true true true = ((λ _. (refl, refl, refl)), (λ _. refl))
code_of_iff true true false = ((λ h. elim (no_code h) [ ]), (λ (x, y, z). cc))
code_of_iff true false c = ((λ h. elim (no_code h) [ ]), (λ (x, y, z). cc))
code_of_iff false b c = ((λ h. elim (no_code h) [ ]), (λ (x, y, z). cc))

-- The answer is 200 exactly if the database answers, its triggers are installed and NATS is
-- connected.
pub code_iff :
    (detailed : Bool) (db : Option DbAnswers) (nats : Option NatsAnswers)
    → ((handle_health_check detailed db nats).code ≡ 200) ↔ IsUp db nats
unfolding handle_health_check check is_connected are_cdc_hooks_installed
code_iff detailed none nats =
    ((λ h. elim (no_false ((code_of_iff false false false).0 h).0) [ ]), (λ h. elim h [ ]))
  where
    no_false : ¬ (false ≡ true)
    no_false k = cc
code_iff detailed (some d) none = (
  (λ h.
      elim (no_false ((code_of_iff (is_connected d) false (are_cdc_hooks_installed d)).0 h).1) [ ]),
  (λ h. elim h [ ]),
)
  where
    no_false : ¬ (false ≡ true)
    no_false k = cc
code_iff detailed (some d) (some n) =
    let (to, from) =
      code_of_iff (is_connected d) (n.has_client && n.is_up) (are_cdc_hooks_installed d) in
    let (up, down) = tests_iff in ((λ h. up (to h)), (λ h. from (down h)))
  where
    tests_iff :
        ((is_connected d ≡ true)
          × ((n.has_client && n.is_up) ≡ true)
          × (are_cdc_hooks_installed d ≡ true))
        ↔ IsUp (some d) (some n)
    tests_iff =
        ground
          (arith, succeeds_iff d.borrowed, succeeds_iff d.select_one, HasSome-iff d.trigger_count)
