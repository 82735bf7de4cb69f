-- ===== src/Cast/Pacing.antt =====
-- crates/nd-chromecast/src/mirror_session/pacing.rs: the burst budget and the sending loop.
-- Instants and durations are in nanoseconds. What the loop reads in a round, the stop flag and the
-- clock, is an argument; the send on the socket is its result.
pub mod Budget
pub mod Average
mod Tests
use big_net_screen.Base.{
  ℕ, zero, suc, ◌+◌, ◌-◌, ◌*◌, ◌/◌, ◌%◌, ◌^◌, Bool, true, false, List, [], ◌∷◌, ltb, leb, ◌==◌,
  if◌then◌else◌,
}

abbrev pub max_burst_bitrate : ℕ
max_burst_bitrate = 24 * 1024 * 1024

abbrev pub burst_interval : ℕ
burst_interval = 10_000_000

abbrev pub burst_budget_bytes : ℕ
burst_budget_bytes = max_burst_bitrate / 8 * (burst_interval / 1_000_000) / 1000

pub record BurstBudget : Type 0 where
  pub started : ℕ
  pub bytes : ℕ

-- A new window starts when the last one is over.
unfoldable pub renew : ℕ → BurstBudget → BurstBudget
renew now b =
    if leb burst_interval (now - b.started) then record { started = now; bytes = 0 } else b

-- The time to wait, zero when the bytes were taken from the budget.
unfoldable pub reserve : ℕ → ℕ → BurstBudget → ℕ × BurstBudget
unfolding renew
reserve now bytes b =
    let b' = renew now b in
    if leb (b'.bytes + bytes) burst_budget_bytes
    then (0, record b' { bytes = b'.bytes + bytes })
    else (burst_interval - (now - b'.started), b')

pub record Round : Type 0 where
  pub stop : Bool
  pub now : ℕ

-- `waiting` is a loop that still sleeps when the rounds are used up.
pub data Sending : Type 0 where
  too_large : Sending
  stopped : Sending
  sent_at : ℕ → Sending
  waiting : Sending

-- The result of a round that reserved, or the loop's rest.
abbrev pub granted : ℕ → BurstBudget → ℕ → Sending × BurstBudget → Sending × BurstBudget
granted now b zero rest = (sent_at now, b)
granted now b (suc wait) rest = rest

unfoldable pub send_loop : List Round → ℕ → BurstBudget → Sending × BurstBudget
unfolding reserve
send_loop [] bytes b = (waiting, b)
send_loop (r ∷ rs) bytes b =
    let (wait, b') = reserve r.now bytes b in
    let rest = send_loop rs bytes b' in if r.stop then (stopped, b) else granted r.now b' wait rest

unfoldable pub send : List Round → ℕ → BurstBudget → Sending × BurstBudget
unfolding send_loop
send rounds bytes b =
    if ltb burst_budget_bytes bytes then (too_large, b) else send_loop rounds bytes b
