-- ===== src/Cast/Flow/Window.antt =====
-- The window of flow.rs over every sequence of sends and acknowledgements.
use big_net_screen.Base.{ℕ, ◌+◌, ◌≤◌, ◌<◌, ◌≡◌, true, Option, arith}
use big_net_screen.Base.Int.{pos, negsuc, pos_part, neg_part, ◌+ℤ◌, ◌≤ℤ◌}
use big_net_screen.Cast.Flow.{
  AckWindow, max_unacked_frames, new, pending, can_send, sent, acknowledge,
}

-- The checkpoint is behind what was sent, by at most the window.
pub record IsValid (w : AckWindow) : Type 0 where
  pub starts : negsuc 0 ≤ℤ w.checkpoint
  pub behind : w.checkpoint ≤ℤ w.last_sent
  pub bounded :
      neg_part w.checkpoint + pos_part w.last_sent ≤ pos_part w.checkpoint + max_unacked_frames

-- The `as u32` of `pending` never wraps: it is the distance from the checkpoint to the last frame.
pub pending_distance :
    {w : AckWindow}
    → IsValid w
    → (pending w ≤ max_unacked_frames)
      × (pos_part w.last_sent + neg_part w.checkpoint
          ≡ pos_part w.checkpoint + neg_part w.last_sent + pending w)
unfolding pending
pending_distance v = ground arith

pub new-IsValid : (now : ℕ) → IsValid (new now)
unfolding new
new-IsValid now = omega arith

pub sent-IsValid :
    (now frame_id : ℕ) {w : AckWindow}
    → IsValid w
    → can_send w ≡ true
    → pos frame_id ≡ w.last_sent +ℤ pos 1
    → IsValid (sent now frame_id w)
unfolding sent can_send ◌+ℤ◌
sent-IsValid now frame_id v room next = ground arith

pub acknowledge-IsValid :
    (now wire : ℕ) (time : Option ℕ) {w : AckWindow}
    → wire < 256
    → IsValid w
    → IsValid (acknowledge now wire time w).1
unfolding acknowledge
acknowledge-IsValid now wire time byte v = ground arith

-- What the two threads of a track do to its window: the sender records the next frame when there
-- is room, and the reader applies whatever byte and time the receiver sent.
pub data Step : AckWindow → AckWindow → Type 0 where
  send :
      {w : AckWindow} (now frame_id : ℕ)
      → can_send w ≡ true
      → pos frame_id ≡ w.last_sent +ℤ pos 1
      → Step w (sent now frame_id w)
  feedback :
      {w : AckWindow} (now wire : ℕ) (time : Option ℕ)
      → wire < 256
      → Step w (acknowledge now wire time w).1

pub data Reach (s : AckWindow) : AckWindow → Type 0 where
  here : Reach s s
  next : {t u : AckWindow} → Reach s t → Step t u → Reach s u

Step-IsValid : {t u : AckWindow} → Step t u → IsValid t → IsValid u
Step-IsValid (send now frame_id room e) v = sent-IsValid now frame_id v room e
Step-IsValid (feedback now wire time byte) v = acknowledge-IsValid now wire time byte v

pub Reach-IsValid : {s t : AckWindow} → Reach s t → IsValid s → IsValid t
Reach-IsValid here v = v
Reach-IsValid (next r st) v = Step-IsValid st (Reach-IsValid r v)

checkpoint-sent :
    (now frame_id : ℕ) (w : AckWindow) → w.checkpoint ≤ℤ (sent now frame_id w).checkpoint
unfolding sent
checkpoint-sent now frame_id w = omega arith

checkpoint-acknowledge :
    (now wire : ℕ) (time : Option ℕ) (w : AckWindow)
    → w.checkpoint ≤ℤ (acknowledge now wire time w).1.checkpoint
unfolding acknowledge
checkpoint-acknowledge now wire time w = ground arith

Step-checkpoint : {t u : AckWindow} → Step t u → t.checkpoint ≤ℤ u.checkpoint
Step-checkpoint (send {w} now frame_id room e) = checkpoint-sent now frame_id w
Step-checkpoint (feedback {w} now wire time byte) = checkpoint-acknowledge now wire time w

-- In every state that a valid window reaches, at most 120 frames are unacknowledged, the u32
-- distance is exact, and the checkpoint has not moved back.
pub Reach-bounded :
    {s t : AckWindow}
    → IsValid s
    → Reach s t
    → IsValid t × (pending t ≤ max_unacked_frames) × (s.checkpoint ≤ℤ t.checkpoint)
Reach-bounded {s} v r = (Reach-IsValid r v, (pending_distance (Reach-IsValid r v)).0, forward r)
  where
    forward : {t : AckWindow} → Reach s t → s.checkpoint ≤ℤ t.checkpoint
    forward here = omega arith
    forward (next r' st) = omega (arith, forward r', Step-checkpoint st)
