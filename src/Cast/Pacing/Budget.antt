-- ===== src/Cast/Pacing/Budget.antt =====
-- One reservation of pacing.rs, and the loop around it.
use big_net_screen.Base.{
  ℕ, zero, suc, ◌+◌, ◌≤◌, ◌<◌, ◌≡◌, ◌≢◌, refl, ◌⊎◌, false, List, [], ◌∷◌, ◌++◌, All, arith, lt→ltb,
  le→ltb_false,
}
use big_net_screen.Cast.Pacing.{
  BurstBudget, burst_interval, burst_budget_bytes, reserve, Round, Sending, too_large, sent_at,
  granted, send_loop, send,
}

abbrev pub IsWithin : BurstBudget → Type 0
IsWithin b = b.bytes ≤ burst_budget_bytes

-- A reservation keeps the window within its budget, and the wait that it asks for is over when the
-- window is: no wait means that the bytes were counted, and a wait that nothing was.
pub reserve_accounts :
    (now bytes : ℕ) (b : BurstBudget)
    → IsWithin b
    → bytes ≤ burst_budget_bytes
    → b.started ≤ now
    → let (wait, b') = reserve now bytes b in
      IsWithin b'
      × (((wait ≡ 0) × (bytes ≤ b'.bytes))
          ⊎ ((wait ≢ 0)
              × (b'.started ≡ b.started)
              × (b'.bytes ≡ b.bytes)
              × (now + wait ≡ b.started + burst_interval)
              × (burst_budget_bytes < b.bytes + bytes)))
unfolding reserve
reserve_accounts now bytes b v h past = ground arith

-- No round of the loop sees the stop flag.
abbrev pub Running : List Round → Type 0
Running = All (λ (r : Round). r.stop ≡ false)

reserve_over :
    (now bytes : ℕ) (b : BurstBudget)
    → bytes ≤ burst_budget_bytes
    → b.started + burst_interval ≤ now
    → (reserve now bytes b).0 ≡ 0
unfolding reserve
reserve_over now bytes b h over = ground arith

started-reserve :
    (now bytes : ℕ) (b : BurstBudget)
    → bytes ≤ burst_budget_bytes
    → (reserve now bytes b).0 ≢ 0
    → (reserve now bytes b).1.started ≡ b.started
unfolding reserve
started-reserve now bytes b h busy = ground arith

abbrev IsSent : Sending × BurstBudget → Type 0
IsSent result = (now : ℕ) × (result.0 ≡ sent_at now)

granted-IsSent :
    (now wait : ℕ) (b : BurstBudget) (rest : Sending × BurstBudget)
    → (wait ≢ 0 → IsSent rest)
    → IsSent (granted now b wait rest)
granted-IsSent now zero b rest h = (now, refl)
granted-IsSent now (suc wait) b rest h = h (omega arith)

send_loop-IsSent :
    (rounds : List Round) (last : Round) (bytes : ℕ) (b : BurstBudget)
    → bytes ≤ burst_budget_bytes
    → Running rounds
    → last.stop ≡ false
    → b.started + burst_interval ≤ last.now
    → IsSent (send_loop (rounds ++ (last ∷ [])) bytes b)
unfolding send_loop
send_loop-IsSent [] last bytes b h run end over = rw end (
    granted-IsSent last.now (reserve last.now bytes b).0 (reserve last.now bytes b).1 _
      λ busy. absurd (busy (reserve_over last.now bytes b h over)))
send_loop-IsSent (r ∷ rs) last bytes b h run end over = rw run.0 (
    granted-IsSent r.now (reserve r.now bytes b).0 (reserve r.now bytes b).1 _ λ busy.
      send_loop-IsSent rs last bytes (reserve r.now bytes b).1 h run.1 end
        (omega (arith, started-reserve r.now bytes b h busy)))

-- A packet that a budget can hold is sent, by the first round at the latest that comes after the
-- window's end, unless the session is stopped; a larger one is refused and nothing is counted.
pub send_returns :
    (rounds : List Round) (last : Round) (bytes : ℕ) (b : BurstBudget)
    → Running rounds
    → last.stop ≡ false
    → b.started + burst_interval ≤ last.now
    → (bytes ≤ burst_budget_bytes
        → (now : ℕ) × ((send (rounds ++ (last ∷ [])) bytes b).0 ≡ sent_at now))
      × (burst_budget_bytes < bytes → send (rounds ++ (last ∷ [])) bytes b ≡ (too_large, b))
unfolding send
send_returns rounds last bytes b run end over = (
  λ h.
      rw (le→ltb_false burst_budget_bytes bytes h)
        (send_loop-IsSent rounds last bytes b h run end over),
  λ h. rw (lt→ltb burst_budget_bytes bytes h),
)
