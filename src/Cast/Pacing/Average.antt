-- ===== src/Cast/Pacing/Average.antt =====
-- The rate that the budget of pacing.rs allows over a whole session.
use big_net_screen.Base.{ℕ, ◌+◌, ◌-◌, ◌*◌, ◌/◌, ◌≤◌, List, [], ◌∷◌, arith, ◌==◌, if◌then◌else◌}
use big_net_screen.Cast.Pacing.{BurstBudget, burst_interval, burst_budget_bytes, reserve}
use big_net_screen.Cast.Pacing.Budget.{IsWithin}

pub record Attempt : Type 0 where
  pub now : ℕ
  pub size : ℕ

-- The bytes that the attempts are granted, whoever makes them.
abbrev pub spent : List Attempt → BurstBudget → ℕ
spent [] b = 0
spent (a ∷ rest) b =
    let (wait, b') = reserve a.now a.size b in
    let more = spent rest b' in if wait == 0 then a.size + more else more

-- The readings of the clock do not go back, and end by `until`.
abbrev pub InOrder : ℕ → ℕ → List Attempt → Type 0
InOrder from until [] = from ≤ until
InOrder from until (a ∷ rest) = (from ≤ a.now) × InOrder a.now until rest

abbrev allowed : ℕ → BurstBudget → ℕ
allowed until b = burst_budget_bytes * (1 + (until - b.started) / burst_interval)

after :
    (now bytes : ℕ) (b : BurstBudget)
    → IsWithin b
    → b.started ≤ now
    → IsWithin (reserve now bytes b).1 × ((reserve now bytes b).1.started ≤ now)
unfolding reserve
after now bytes b v past = ground arith
