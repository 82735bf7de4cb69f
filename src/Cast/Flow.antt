-- ===== src/Cast/Flow.antt =====
-- crates/nd-chromecast/src/flow.rs: the ACK window of one mirroring track.
-- An `Instant` is a number, and the reading of the clock is an argument.
pub mod Window
pub mod Expand
mod Tests
use big_net_screen.Base.{
  ℕ, ◌+◌, ◌-◌, ◌*◌, ◌/◌, ◌%◌, ◌^◌, Bool, true, false, Option, none, some, ltb, ◌==◌, ◌&&◌,
  if◌then◌else◌,
}
use big_net_screen.Base.Int.{ℤ, pos, negsuc, sub_ℕ, ◌+ℤ◌, ◌-ℤ◌, ltb_ℤ}

abbrev pub max_unacked_frames : ℕ
max_unacked_frames = 120

pub record AckWindow : Type 0 where
  pub last_sent : ℤ
  pub checkpoint : ℤ
  pub newest_reference_time : Option ℕ
  pub last_progress : ℕ

unfoldable pub new : ℕ → AckWindow
new now = record {
  last_sent = negsuc 0;
  checkpoint = negsuc 0;
  newest_reference_time = none;
  last_progress = now;
}

-- `x as u32` of an i64, in two's complement.
unfoldable pub to_u32 : ℤ → ℕ
to_u32 (pos n) = n % 2 ^ 32
to_u32 (negsuc n) = 2 ^ 32 - 1 - n % 2 ^ 32

unfoldable pub pending : AckWindow → ℕ
unfolding to_u32 ◌-ℤ◌
pending w = to_u32 (w.last_sent -ℤ w.checkpoint)

unfoldable pub can_send : AckWindow → Bool
unfolding pending
can_send w = ltb (pending w) max_unacked_frames

unfoldable pub sent : ℕ → ℕ → AckWindow → AckWindow
unfolding pending
sent now frame_id w = record w {
  last_sent = pos frame_id;
  last_progress = if pending w == 0 then now else w.last_progress;
}

-- `x & !0xff` of an i64: the multiple of 256 at or below `x`.
unfoldable pub clear_low_byte : ℤ → ℤ
clear_low_byte (pos n) = pos (n / 256 * 256)
clear_low_byte (negsuc n) = negsuc (n / 256 * 256 + 255)

-- The low byte of the expanded id is clear, so `|` with the wire byte is a sum.
unfoldable pub expand : ℤ → ℕ → ℤ
unfolding clear_low_byte ◌+ℤ◌ ◌-ℤ◌
expand last_sent wire =
    let expanded = clear_low_byte last_sent +ℤ pos wire in
    if ltb_ℤ last_sent expanded then expanded -ℤ pos 256 else expanded

-- Both reference times are there, and the new one is older.
unfoldable pub is_stale : Option ℕ → Option ℕ → Bool
is_stale (some new) (some old) = ltb new old
is_stale _ _ = false

-- `reference_time.is_some()` overwrites the newest one.
unfoldable pub newer : Option ℕ → Option ℕ → Option ℕ
newer none old = old
newer (some new) old = some new

unfoldable pub acknowledge : ℕ → ℕ → Option ℕ → AckWindow → Bool × AckWindow
unfolding expand is_stale newer
acknowledge now wire reference_time w =
    if is_stale reference_time w.newest_reference_time
    then (false, w)
    else let expanded = expand w.last_sent wire in
      if ltb_ℤ expanded w.checkpoint then (false, w) else (
        true,
        record w {
          checkpoint = if ltb_ℤ w.checkpoint expanded then expanded else w.checkpoint;
          newest_reference_time = newer reference_time w.newest_reference_time;
          last_progress = if ltb_ℤ w.checkpoint expanded then now else w.last_progress;
        },
      )
