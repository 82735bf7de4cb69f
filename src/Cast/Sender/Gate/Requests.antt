-- ===== src/Cast/Sender/Gate/Requests.antt =====
-- How often sender.rs asks for a key frame.
use big_net_screen.Base.{
  ℕ, zero, suc, ◌+◌, ◌%◌, ◌^◌, min, ◌≡◌, refl, Bool, true, false, List, [], ◌∷◌, arith,
  if◌then◌else◌,
}
use big_net_screen.Cast.Sender.Gate.{
  Gate, Offered, skip_while_receiver_catches_up, take_key_frame_request,
}

-- The worker takes the request after every frame; the requests that it takes.
abbrev pub requests : List Offered → Gate → ℕ
requests [] g = 0
requests (f ∷ fs) g =
    let (skipped, g') = skip_while_receiver_catches_up f.is_key f.has_room g in
    let (wanted, g2) = take_key_frame_request g' in
    let more = requests fs g2 in if wanted then suc more else more

-- `n` delta frames that the window has room for.
abbrev pub deltas : ℕ → List Offered
deltas zero = []
deltas (suc n) = record { is_key = false; has_room = true } ∷ deltas n

asked :
    (n : ℕ) (video : Bool) (dropped window : ℕ)
    → requests (deltas n) (record {
      is_video = video;
      key_frame_request = false;
      resyncing = true;
      resync_requested = true;
      frames_dropped = dropped;
      dropped_window = window;
    })
      ≡ 0
unfolding skip_while_receiver_catches_up take_key_frame_request
asked zero video dropped window = refl
asked (suc n) video dropped window = asked n video ((dropped + 1) % 2 ^ 64) window

-- A video track that a full window made wait for a key frame asks for it once: with the first frame
-- that there is room for, and no more while the frames that come are deltas.
pub one_request :
    (n : ℕ) (is_key resyncing resync_requested : Bool) (frames_dropped dropped_window : ℕ)
    → requests (record { is_key = is_key; has_room = false } ∷ deltas n) (record {
      is_video = true;
      key_frame_request = false;
      resyncing = resyncing;
      resync_requested = resync_requested;
      frames_dropped = frames_dropped;
      dropped_window = dropped_window;
    })
      ≡ min n 1
unfolding skip_while_receiver_catches_up take_key_frame_request
one_request zero is_key resyncing resync_requested frames_dropped dropped_window = omega arith
one_request (suc n) is_key resyncing resync_requested frames_dropped dropped_window = omega (
  arith,
  asked n true (((frames_dropped + 1) % 2 ^ 64 + 1) % 2 ^ 64) ((dropped_window + 1) % 2 ^ 64),
)
