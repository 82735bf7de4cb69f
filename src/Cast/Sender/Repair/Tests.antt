-- ===== src/Cast/Sender/Repair/Tests.antt =====
-- Runs of the repairs of sender.rs, and its theorems at concrete requests.
use big_net_screen.Base.{ℕ, ◌≤◌, ◌≡◌, refl, true, inl, List, [], ◌∷◌, All, arith, ltb}
use big_net_screen.Base.Int.{pos}
use big_net_screen.Cast.Pacing.{burst_budget_bytes}
use big_net_screen.Cast.Rtcp.Report.{SenderStats}
use big_net_screen.Cast.Rtcp.Feedback.{Nack}
use big_net_screen.Cast.Sender.History.{HistoryEntry, find_wire}
use big_net_screen.Cast.Sender.Repair.{Repairs, Turn, contains, wanted_ids, serve, retransmit}
use big_net_screen.Cast.Sender.Repair.Queue.{IsValid}
use big_net_screen.Cast.Sender.Repair.Resending.{Fits, IsOwed, sizes, retransmit_sound}
use big_net_screen.Cast.Sender.Repair.Covering.{serve-covers}

abbrev kept_frame : HistoryEntry
kept_frame = record { frame_id = 258; sent = 0; packets = (1 ∷ 2 ∷ []) ∷ (3 ∷ []) ∷ (4 ∷ []) ∷ [] }

abbrev kept_frames : List HistoryEntry
kept_frames = record { frame_id = 257; sent = 0; packets = (9 ∷ []) ∷ [] } ∷ kept_frame ∷ []

abbrev whole_frame : Nack
whole_frame = record { frame_id = 2; packet_id = 0xffff; bitmask = 0 }

abbrev acknowledged_frame : Nack
acknowledged_frame = record { frame_id = 1; packet_id = 0; bitmask = 0 }

abbrev unknown_frame : Nack
unknown_frame = record { frame_id = 7; packet_id = 0; bitmask = 0 }

abbrev empty : Repairs
empty = record { repair_queue = []; queued_repairs = [] }

empty-IsValid : IsValid empty
unfolding contains
empty-IsValid = record { distinct = tt; in_step = λ k. refl; bounded = omega arith }

-- The session stops before the third packet.
abbrev turns : ℕ → Turn
turns k = record { running = ltb k 2; accepted = true }

abbrev no_stats : SenderStats
no_stats = record { packets = 0; octets = 0 }

abbrev asked : List Nack
asked = whole_frame ∷ acknowledged_frame ∷ unknown_frame ∷ whole_frame ∷ []

retransmit_run : retransmit kept_frames (pos 257) turns asked (no_stats, empty) ≡ (
  record {
    sent = record { frame_id = 258; packet = 1 } ∷ record { frame_id = 258; packet = 0 } ∷ [];
    expired = 1;
  },
  record { packets = 2; octets = 0 },
  record {
    repair_queue = record { frame_id = 258; packet = 2 } ∷ [];
    queued_repairs = record { frame_id = 258; packet = 2 } ∷ [];
  },
)
unfolding retransmit
retransmit_run = refl

kept_frames-Fits : Fits kept_frames
kept_frames-Fits = ((omega arith, tt), ((omega arith, (omega arith, (omega arith, tt))), tt))

retransmit_sound_example :
    let (result, _, r') = retransmit kept_frames (pos 257) turns asked (no_stats, empty) in
    IsValid r'
    × All (IsOwed kept_frames (pos 257)) result.sent
    × (sizes kept_frames result.sent ≤ burst_budget_bytes)
retransmit_sound_example =
    retransmit_sound kept_frames (pos 257) turns asked no_stats empty kept_frames-Fits empty-IsValid

serve-covers_example :
    contains
      (record { frame_id = 258; packet = 2 })
      (serve kept_frames (pos 257) whole_frame (0, empty)).1.repair_queue
    ≡ true
unfolding wanted_ids find_wire
serve-covers_example =
    serve-covers kept_frames (pos 257) whole_frame kept_frame 2 0 empty empty-IsValid refl refl
      (omega arith) (inl refl) (omega arith) (omega arith)
