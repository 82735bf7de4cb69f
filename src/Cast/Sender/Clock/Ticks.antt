-- ===== src/Cast/Sender/Clock/Ticks.antt =====
-- Time as the receiver reads it from the timestamps of sender.rs.
use big_net_screen.Base.{ℕ, ◌+◌, ◌-◌, ◌*◌, ◌/◌, ◌%◌, ◌^◌, ◌<◌, ◌≡◌, ◌⊎◌, arith}
use big_net_screen.Cast.Sender.Clock.{rtp_ticks}

-- The distance of two 32-bit timestamps, the second one later.
abbrev pub distance : ℕ → ℕ → ℕ
distance from until = (until + 2 ^ 32 - from) % 2 ^ 32

ticks_apart :
    (a b : ℕ)
    → b / 1_000_000_000 + 1 < 2 ^ 32
    → (distance (a / 1_000_000_000 % 2 ^ 32) ((a + b) / 1_000_000_000 % 2 ^ 32) ≡ b / 1_000_000_000)
      ⊎ (distance (a / 1_000_000_000 % 2 ^ 32) ((a + b) / 1_000_000_000 % 2 ^ 32)
          ≡ b / 1_000_000_000 + 1)
ticks_apart a b h = omega arith

-- Two frames that are `apart` nanoseconds apart have timestamps that differ by the ticks of that
-- time, rounded down or up, wherever in the session they are and across the wrap of 32 bits.
pub rtp_ticks_apart :
    (running apart time_base : ℕ)
    → apart * time_base / 1_000_000_000 + 1 < 2 ^ 32
    → let d = distance (rtp_ticks running time_base) (rtp_ticks (running + apart) time_base) in
      (d ≡ apart * time_base / 1_000_000_000) ⊎ (d ≡ apart * time_base / 1_000_000_000 + 1)
unfolding rtp_ticks
rtp_ticks_apart running apart time_base h =
    let sum : (running + apart) * time_base ≡ running * time_base + apart * time_base =
      omega arith in
    rw sum (ticks_apart (running * time_base) (apart * time_base) h)
