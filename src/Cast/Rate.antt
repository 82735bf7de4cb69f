-- ===== src/Cast/Rate.antt =====
-- crates/nd-chromecast/src/rate.rs: the encoder's bitrate against what the link carries.
pub mod Bounds
pub mod Recovery
pub mod Counters
mod Tests
use big_net_screen.Base.{
  ℕ, zero, suc, ◌+◌, ◌-◌, ◌*◌, ◌/◌, ◌%◌, ◌^◌, max, min, Bool, true, false, not, ◌&&◌, Option, none,
  some, List, [], ◌∷◌, ltb, leb, ◌==◌, if◌then◌else◌,
}

abbrev pub floor_kbps : ℕ
floor_kbps = 300

abbrev pub healthy_windows_before_raising : ℕ
healthy_windows_before_raising = 4

pub record Window : Type 0 where
  pub packets_sent : ℕ
  pub packets_resent : ℕ
  pub frames_dropped : ℕ

-- LOSS_LIMIT is one in fifty. The count sent is below 2 ^ 32, so the test on the f64 quotient is
-- the test on the numbers: the quotient 1 / 50 rounds to the limit itself, and any larger one is
-- past it by more than a rounding.
unfoldable pub congested : Window → Bool
congested w =
    if ltb 0 w.frames_dropped
    then true
    else (ltb 0 w.packets_sent && ltb w.packets_sent (50 * w.packets_resent))

pub record Baseline : Type 0 where
  pub packets : ℕ
  pub resent : ℕ
  pub dropped : ℕ

unfoldable pub wrapping_sub : ℕ → ℕ → ℕ
wrapping_sub a b = (a + 2 ^ 32 - b) % 2 ^ 32

unfoldable pub advance : ℕ → ℕ → ℕ → Baseline → Window × Baseline
unfolding wrapping_sub
advance packets resent dropped b = (
  record {
    packets_sent = wrapping_sub packets b.packets;
    packets_resent = resent - b.resent;
    frames_dropped = dropped - b.dropped;
  },
  record { packets = packets; resent = resent; dropped = dropped },
)

pub record RateControl : Type 0 where
  pub ceiling_kbps : ℕ
  pub current_kbps : ℕ
  pub healthy_windows : ℕ

unfoldable pub new : ℕ → RateControl
new ceiling_kbps = record {
  ceiling_kbps = max ceiling_kbps floor_kbps;
  current_kbps = max ceiling_kbps floor_kbps;
  healthy_windows = 0;
}

unfoldable pub retreat : RateControl → RateControl
retreat r = record r {
  healthy_windows = 0;
  current_kbps = max (r.current_kbps * 4 % 2 ^ 32 / 5) floor_kbps;
}

-- The branch of a healthy window; `healthy` is the count with it.
unfoldable pub raise : ℕ → RateControl → RateControl
raise healthy r =
    if leb healthy_windows_before_raising healthy && ltb r.current_kbps r.ceiling_kbps
    then record r {
      healthy_windows = 0;
      current_kbps = min (r.current_kbps * 11 % 2 ^ 32 / 10) r.ceiling_kbps;
    }
    else record r { healthy_windows = healthy }

unfoldable pub settle : Bool → RateControl → RateControl
unfolding retreat raise
settle bad r = if bad then retreat r else raise ((r.healthy_windows + 1) % 2 ^ 32) r

-- The rate goes to the encoder only when it changed.
unfoldable pub observe : Window → RateControl → Option ℕ × RateControl
unfolding congested settle
observe window r =
    let r' = settle (congested window) r in
    (if not (r'.current_kbps == r.current_kbps) then some r'.current_kbps else none, r')

-- A session's windows, one after the other.
unfoldable pub run : List Window → RateControl → RateControl
unfolding observe
run [] r = r
run (w ∷ ws) r = run ws (observe w r).1
