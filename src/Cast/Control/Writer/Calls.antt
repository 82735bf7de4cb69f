-- ===== src/Cast/Control/Writer/Calls.antt =====
-- The calls of writer.rs, and what they put on the stream.
use big_net_screen.Base.{
  ℕ, ◌≡◌, ◌⊎◌, Bool, true, false, ◌&&◌, ◌||◌, Option, some, List, [], ◌∷◌, ◌++◌, take,
  if◌then◌else◌,
}
use big_net_screen.Cast.Control.Writer.{
  ControlWriter, mark_closed, Course, completes, breaks, send, begin_close, end_close,
}

-- The calls of all tasks that share the writer, in the order in which they take its lock.
pub data Call : Type 0 where
  sends : Course → Option (List ℕ) → Bool → Call
  begins_close : Call
  ends_close : Course → Option (List ℕ) → Call
  loses : Call

abbrev pub step : Call → ControlWriter → ControlWriter
step (sends course frame heartbeat) w = (send course frame heartbeat w).1
step begins_close w = begin_close w
step (ends_close course frame) w = end_close course frame w
step loses w = mark_closed w

abbrev pub run : List Call → ControlWriter → ControlWriter
run [] w = w
run (c ∷ cs) w = run cs (step c w)

-- The frame that a call puts out whole.
abbrev pub whole_frame : Course → Option (List ℕ) → Bool → ControlWriter → List ℕ
whole_frame completes (some frame) suppressed w = if w.closed || suppressed then [] else frame
whole_frame _ _ suppressed w = []

abbrev pub puts : Call → ControlWriter → List ℕ
puts (sends course frame heartbeat) w = whole_frame course frame (heartbeat && w.closing) w
puts (ends_close course frame) w = whole_frame course frame false w
puts _ w = []

abbrev pub all_puts : List Call → ControlWriter → List ℕ
all_puts [] w = []
all_puts (c ∷ cs) w = puts c w ++ all_puts cs (step c w)

-- The bytes are the beginning of the frame of a call whose write broke.
abbrev pub IsPiece : List ℕ → Call → Type 0
IsPiece cut (sends (breaks n) (some frame) heartbeat) = cut ≡ take n frame
IsPiece cut (ends_close (breaks n) (some frame)) = cut ≡ take n frame
IsPiece cut _ = ⊥

-- There are none, or they are a piece of the frame of one of the calls.
abbrev pub IsCut : List ℕ → List Call → Type 0
IsCut cut [] = cut ≡ []
IsCut cut (c ∷ cs) = IsPiece cut c ⊎ IsCut cut cs

-- A call on a closed writer puts nothing out, and leaves it closed.
abbrev pub IsStill : ControlWriter → ControlWriter → Type 0
IsStill w w' = w.closed ≡ true → (w'.stream ≡ w.stream) × (w'.closed ≡ true)
