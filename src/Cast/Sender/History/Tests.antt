-- ===== src/Cast/Sender/History/Tests.antt =====
-- Runs of the history of sender.rs, and its theorems at concrete frames.
use big_net_screen.Base.{◌≡◌, refl, inl, inr, none, [], ◌∷◌, arith}
use big_net_screen.Base.Int.{pos, ◌+ℤ◌}
use big_net_screen.Cast.Flow.{AckWindow}
use big_net_screen.Cast.Sender.History.{HistoryEntry, prune_history, keep}
use big_net_screen.Cast.Sender.History.Window.{IsWindow, Has, keep-unacked}

abbrev at_254 : HistoryEntry
at_254 = record { frame_id = 254; sent = 0; packets = (1 ∷ 2 ∷ []) ∷ [] }

abbrev at_255 : HistoryEntry
at_255 = record { frame_id = 255; sent = 5; packets = [] }

abbrev at_256 : HistoryEntry
at_256 = record { frame_id = 256; sent = 9; packets = (3 ∷ []) ∷ [] }

-- Only the acknowledged one is old enough to go.
expired_run :
    prune_history 3_000_000_000 (pos 254) (at_254 ∷ at_255 ∷ at_256 ∷ []) ≡ at_255 ∷ at_256 ∷ []
unfolding prune_history
expired_run = refl

two-IsWindow : IsWindow 256 (at_254 ∷ at_255 ∷ [])
two-IsWindow = omega arith

abbrev window : AckWindow
window = record {
  last_sent = pos 256;
  checkpoint = pos 254;
  newest_reference_time = none;
  last_progress = 0;
}

keep-unacked_example :
    Has at_255 (keep at_256 3_000_000_000 window.checkpoint (at_254 ∷ at_255 ∷ []))
unfolding ◌+ℤ◌
keep-unacked_example =
    keep-unacked at_256 at_255 3_000_000_000 window (at_254 ∷ at_255 ∷ []) two-IsWindow
      (omega arith) refl (inr (inl refl)) (omega arith)
