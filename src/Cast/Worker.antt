-- ===== src/Cast/Worker.antt =====
-- crates/nd-chromecast/src/mirror_session/worker.rs: what the threads of the tracks report of a
-- session, and how often they force a key frame. An error is the number that stands for it, and
-- times are in nanoseconds.
pub mod Verdict
pub mod Spacing
pub mod Upkeep
mod Tests
use big_net_screen.Base.{
  ℕ, ◌+◌, ◌-◌, ◌*◌, ◌%◌, ◌^◌, Bool, true, false, not, ◌&&◌, Option, none, some, List, [], ◌∷◌, leb,
  ◌==◌, if◌then◌else◌,
}

pub data Finish : Type 0 where
  ok : Finish
  err : ℕ → Finish

-- `outcome` is the end of the channel, until it is taken, and `finished` what arrived at the other
-- end.
pub record SessionSignals : Type 0 where
  pub outcome : Bool
  pub running : ℕ
  pub finished : Option Finish

unfoldable pub new : ℕ → SessionSignals
new tracks = record { outcome = true; running = tracks; finished = none }

unfoldable pub finish : Finish → SessionSignals → SessionSignals
finish result s = if s.outcome then record s { outcome = false; finished = some result } else s

unfoldable pub fail : ℕ → SessionSignals → SessionSignals
unfolding finish
fail e s = finish (err e) s

-- The count wraps, as fetch_sub does.
unfoldable pub track_ended : SessionSignals → SessionSignals
unfolding finish
track_ended s =
    let s' : SessionSignals = record s { running = (s.running + (2 ^ 64 - 1)) % 2 ^ 64 } in
    if s.running == 1 then finish ok s' else s'

-- How the thread of a track returns from `Worker::run`.
pub data Return : Type 0 where
  failed : ℕ → Return
  over : Return

unfoldable pub report : Return → SessionSignals → SessionSignals
unfolding fail track_ended
report (failed e) s = fail e s
report over s = track_ended s

-- The returns of the threads, in the order in which they happen.
unfoldable pub reports : List Return → SessionSignals → SessionSignals
unfolding report
reports [] s = s
reports (r ∷ rs) s = reports rs (report r s)

abbrev pub key_frame_request_interval : ℕ
key_frame_request_interval = 500_000_000

abbrev pub is_due : ℕ → Option ℕ → Bool
is_due now none = true
is_due now (some at) = leb key_frame_request_interval (now - at)

-- What the call reads and writes: when the last key frame was forced, and the receiver's wish.
pub record KeyFrames : Type 0 where
  pub last_key_frame : Option ℕ
  pub key_frame_wanted : Bool

-- Whether it forces a key frame, and the state after it. A resync leaves the wish as it is.
unfoldable pub request_key_frame : ℕ → Bool → KeyFrames → Bool × KeyFrames
request_key_frame now resync k =
    if resync
    then (true, record k { last_key_frame = some now })
    else if (is_due now k.last_key_frame && k.key_frame_wanted)
    then (true, record { last_key_frame = some now; key_frame_wanted = false })
    else (false, k)
