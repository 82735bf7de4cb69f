-- ===== src/Cast/Sender/Clock/Tests.antt =====
-- Runs of the clock of sender.rs, and its theorems at concrete times.
use big_net_screen.Base.{◌≡◌, refl}
use big_net_screen.Cast.Sender.Clock.{rtp_ticks}

-- A thousand hours at 90 kHz are past 32 bits.
long_run : rtp_ticks 3_600_000_000_000_000 90_000 ≡ 1_877_452_800
unfolding rtp_ticks
long_run = refl
