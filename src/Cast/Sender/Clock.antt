-- ===== src/Cast/Sender/Clock.antt =====
-- The timestamps of sender.rs, and its watch over the outgoing flow. Times are in nanoseconds.
pub mod Ticks
pub mod Watch
mod Tests
use big_net_screen.Base.{
  ℕ, ◌+◌, ◌-◌, ◌*◌, ◌/◌, ◌%◌, ◌^◌, max, Bool, true, false, ◌&&◌, Option, none, some, List, [], ◌∷◌,
  ltb, if◌then◌else◌,
}

-- The product has 128 bits, which two factors of 64 and 32 bits do not fill.
unfoldable pub rtp_ticks : ℕ → ℕ → ℕ
rtp_ticks running_ns time_base = running_ns * time_base / 1_000_000_000 % 2 ^ 32

pub record FlowWatch : Type 0 where
  pub last_pts_ns : Option ℕ
  pub last_send : Option ℕ
  pub frames : ℕ
  pub pts_jumps : ℕ
  pub worst_pts_jump_ms : ℕ
  pub worst_send_gap_ms : ℕ

-- The gap since the last timestamp, if there is one that is too large.
unfoldable pub jump : ℕ → ℕ → Option ℕ → Option ℕ
jump pts_ns expected none = none
jump pts_ns expected (some prev) =
    if ltb (expected % 2 ^ 64 * 2 % 2 ^ 64) (pts_ns - prev) then some (pts_ns - prev) else none

unfoldable pub count_jump : Option ℕ → FlowWatch → FlowWatch
count_jump none w = w
count_jump (some delta) w = record w {
  pts_jumps = (w.pts_jumps + 1) % 2 ^ 64;
  worst_pts_jump_ms = max w.worst_pts_jump_ms (delta / 1_000_000);
}

unfoldable pub widest_gap : ℕ → Option ℕ → ℕ → ℕ
widest_gap now none worst = worst
widest_gap now (some prev) worst = max worst ((now - prev) / 1_000_000 % 2 ^ 64)

unfoldable pub record_frame : ℕ → ℕ → ℕ → FlowWatch → FlowWatch
unfolding jump count_jump widest_gap
record_frame now pts_ns expected w =
    let w' = count_jump (jump pts_ns expected w.last_pts_ns) w in
    record w' {
      worst_send_gap_ms = widest_gap now w.last_send w.worst_send_gap_ms;
      last_pts_ns = some pts_ns;
      last_send = some now;
      frames = (w.frames + 1) % 2 ^ 64;
    }

-- Frames, jumps, the worst jump and the worst gap.
pub record Figures : Type 0 where
  pub frames : ℕ
  pub pts_jumps : ℕ
  pub worst_pts_jump_ms : ℕ
  pub worst_send_gap_ms : ℕ

unfoldable pub take_figures : FlowWatch → Figures × FlowWatch
take_figures w = (
  record {
    frames = w.frames;
    pts_jumps = w.pts_jumps;
    worst_pts_jump_ms = w.worst_pts_jump_ms;
    worst_send_gap_ms = w.worst_send_gap_ms;
  },
  record w { frames = 0; pts_jumps = 0; worst_pts_jump_ms = 0; worst_send_gap_ms = 0 },
)
