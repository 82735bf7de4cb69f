-- ===== src/Cast/Pacing/Tests.antt =====
-- Runs of pacing.rs, and its theorems at concrete budgets.
use big_net_screen.Base.{ℕ, ◌≤◌, ◌<◌, ◌≡◌, refl, true, false, List, [], ◌∷◌, arith}
use big_net_screen.Cast.Pacing.{
  BurstBudget, Round, burst_budget_bytes, reserve, sent_at, stopped, too_large, send,
}
use big_net_screen.Cast.Pacing.Budget.{send_returns}
use big_net_screen.Cast.Pacing.Average.{Attempt}

budget_value : burst_budget_bytes ≡ 31457
budget_value = refl

abbrev nearly_full : BurstBudget
nearly_full = record { started = 1000; bytes = 31000 }

full_run : reserve 2000 1500 nearly_full ≡ (9_999_000, nearly_full)
unfolding reserve
full_run = refl

renewed_run :
    reserve 10_001_000 1500 nearly_full ≡ (0, record { started = 10_001_000; bytes = 1500 })
unfolding reserve
renewed_run = refl

abbrev early : Round
early = record { stop = false; now = 2000 }

abbrev late : Round
late = record { stop = false; now = 10_002_000 }

abbrev halt : Round
halt = record { stop = true; now = 3000 }

stopped_run : send (early ∷ halt ∷ late ∷ []) 1500 nearly_full ≡ (stopped, nearly_full)
unfolding send
stopped_run = refl

send_returns_example :
    (1500 ≤ burst_budget_bytes
      → (now : ℕ) × ((send (early ∷ late ∷ []) 1500 nearly_full).0 ≡ sent_at now))
    × (burst_budget_bytes < 1500
        → send (early ∷ late ∷ []) 1500 nearly_full ≡ (too_large, nearly_full))
send_returns_example = send_returns (early ∷ []) late 1500 nearly_full (refl, tt) refl (omega arith)

abbrev three_attempts : List Attempt
three_attempts =
    record { now = 2000; size = 1500 }
    ∷ record { now = 10_002_000; size = 1500 }
    ∷ record { now = 10_003_000; size = 900 }
    ∷ []
