-- ===== src/Cast/Control/Writer.antt =====
-- crates/nd-chromecast/src/cast/writer.rs: `ControlWriter`, with what the receiver has got of the
-- stream as a part of its state. A deadline or a dropped call ends a write after some of its bytes.
pub mod Calls
pub mod Single
pub mod Whole
mod Tests
use big_net_screen.Base.{
  ℕ, Bool, true, false, ◌&&◌, Option, none, some, List, [], ◌∷◌, ◌++◌, take, if◌then◌else◌,
}

pub record ControlWriter : Type 0 where
  pub stream : List ℕ
  pub closed : Bool
  pub closing : Bool

unfoldable pub new : ControlWriter
new = record { stream = []; closed = false; closing = false }

unfoldable pub mark_closed : ControlWriter → ControlWriter
mark_closed w = record w { closed = true }

-- How a write goes: the lock is not had in time, all bytes are written and flushed, or the write
-- ends after some of them, by an error, the deadline, or because the call is dropped.
pub data Course : Type 0 where
  lock_timed_out : Course
  completes : Course
  breaks : ℕ → Course

pub data Written : Type 0 where
  done : Written
  refused : Written
  failed : Written

-- `FrameWrite` closes the writer when it is dropped before the frame is complete.
unfoldable pub put_frame : Course → List ℕ → Bool → ControlWriter → Written × ControlWriter
unfolding mark_closed
put_frame lock_timed_out frame last w = (failed, w)
put_frame completes frame last w = (
  done,
  let w' : ControlWriter = record w { stream = w.stream ++ frame } in
      if last then mark_closed w' else w',
)
put_frame (breaks n) frame last w =
    (failed, record w { stream = w.stream ++ take n frame; closed = true })

abbrev pub had_lock : Course → Bool
had_lock lock_timed_out = false
had_lock _ = true

unfoldable pub write : Course → List ℕ → Bool → Bool → ControlWriter → Written × ControlWriter
unfolding put_frame
write course frame heartbeat last w =
    if had_lock course
    then (if w.closed
        then (refused, w)
        else if heartbeat && w.closing
        then (done, w)
        else put_frame course frame last w)
    else (failed, w)

-- A message that is too large has no frame. The flag says that its namespace is the heartbeat's.
unfoldable pub send : Course → Option (List ℕ) → Bool → ControlWriter → Written × ControlWriter
unfolding write
send course none heartbeat w = (refused, w)
send course (some frame) heartbeat w = write course frame heartbeat false w

-- The store to `closing` comes first, and other writes may come in before the frame of the close.
unfoldable pub begin_close : ControlWriter → ControlWriter
begin_close w = record w { closing = true }

abbrev pub close_frame : Course → Option (List ℕ) → ControlWriter → ControlWriter
close_frame course none w = w
close_frame course (some frame) w = (write course frame false true w).1

unfoldable pub end_close : Course → Option (List ℕ) → ControlWriter → ControlWriter
unfolding write mark_closed
end_close course frame w = mark_closed (if w.closed then w else close_frame course frame w)
