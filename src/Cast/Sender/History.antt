-- ===== src/Cast/Sender/History.antt =====
-- The frames that sender.rs keeps for retransmission, the oldest first.
pub mod Window
pub mod Find
mod Tests
use big_net_screen.Base.{
  ℕ, ◌+◌, ◌-◌, ◌*◌, ◌%◌, Bool, true, false, not, ◌&&◌, ◌||◌, Option, none, some, List, [], ◌∷◌,
  ◌++◌, length, ltb, ◌==◌, if◌then◌else◌,
}
use big_net_screen.Base.Int.{ℤ, pos, ltb_ℤ}
use big_net_screen.Cast.Flow.{max_unacked_frames}

-- Two seconds, in nanoseconds.
abbrev pub retransmit_history : ℕ
retransmit_history = 2_000_000_000

abbrev pub retransmit_history_max : ℕ
retransmit_history_max = max_unacked_frames

pub record HistoryEntry : Type 0 where
  pub frame_id : ℕ
  pub sent : ℕ
  pub packets : List (List ℕ)

-- The front of the history may go: acknowledged and old, or one of too many.
unfoldable pub is_expired : ℕ → ℤ → HistoryEntry → Bool
is_expired now acknowledged e =
    not (ltb_ℤ acknowledged (pos e.frame_id)) && ltb retransmit_history (now - e.sent)

unfoldable pub prune_history : ℕ → ℤ → List HistoryEntry → List HistoryEntry
unfolding is_expired
prune_history now acknowledged [] = []
prune_history now acknowledged (e ∷ es) =
    let rest = prune_history now acknowledged es in
    if is_expired now acknowledged e || ltb retransmit_history_max (length (e ∷ es))
    then rest
    else e ∷ es

-- The end of `send_frame`.
unfoldable pub keep : HistoryEntry → ℕ → ℤ → List HistoryEntry → List HistoryEntry
unfolding prune_history
keep entry now acknowledged history = prune_history now acknowledged (history ++ (entry ∷ []))

-- `history.iter().find(…)` on the low byte of the ids.
unfoldable pub find_wire : ℕ → List HistoryEntry → Option HistoryEntry
find_wire wire [] = none
find_wire wire (e ∷ es) = if e.frame_id % 256 == wire then some e else find_wire wire es

unfoldable pub find_frame : ℕ → List HistoryEntry → Option HistoryEntry
find_frame frame_id [] = none
find_frame frame_id (e ∷ es) = if e.frame_id == frame_id then some e else find_frame frame_id es
