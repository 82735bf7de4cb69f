-- ===== src/Cast/Sender/Gate.antt =====
-- Which encoded frames sender.rs drops, and when it asks the encoder for a key frame.
pub mod Decoding
pub mod Requests
mod Tests
use big_net_screen.Base.{ℕ, ◌+◌, ◌%◌, ◌^◌, Bool, true, false, List, [], ◌∷◌, if◌then◌else◌}

-- The fields of a `StreamSender` that the decision reads or writes.
pub record Gate : Type 0 where
  pub is_video : Bool
  pub key_frame_request : Bool
  pub resyncing : Bool
  pub resync_requested : Bool
  pub frames_dropped : ℕ
  pub dropped_window : ℕ

unfoldable pub new : Bool → Gate
new is_video = record {
  is_video = is_video;
  key_frame_request = false;
  resyncing = is_video;
  resync_requested = false;
  frames_dropped = 0;
  dropped_window = 0;
}

unfoldable pub refuse : Gate → Gate
refuse g = record g {
  dropped_window = (g.dropped_window + 1) % 2 ^ 64;
  resyncing = if g.is_video then true else g.resyncing;
  resync_requested = if g.is_video then false else g.resync_requested;
  frames_dropped = (g.frames_dropped + 1) % 2 ^ 64;
}

-- A delta frame that comes while the track waits for a key frame.
unfoldable pub await_key : Gate → Gate
await_key g = record g {
  key_frame_request = if g.resync_requested then g.key_frame_request else true;
  resync_requested = true;
  frames_dropped = (g.frames_dropped + 1) % 2 ^ 64;
}

-- `true` drops the frame.
unfoldable pub skip_while_receiver_catches_up : Bool → Bool → Gate → Bool × Gate
unfolding refuse await_key
skip_while_receiver_catches_up is_key has_room g =
    if has_room
    then (if g.resyncing
        then (if is_key
            then (false, record g { resyncing = false; resync_requested = false })
            else (true, await_key g))
        else (false, g))
    else (true, refuse g)

unfoldable pub take_key_frame_request : Gate → Bool × Gate
take_key_frame_request g = (g.key_frame_request, record g { key_frame_request = false })

-- A frame as the encoder hands it out, with what the window of the track says at that moment.
pub record Offered : Type 0 where
  pub is_key : Bool
  pub has_room : Bool

-- What becomes of the frames, in order: whether each is a key frame, and whether it is sent.
pub record Fate : Type 0 where
  pub is_key : Bool
  pub sent : Bool

unfoldable pub offer : List Offered → Gate → List Fate × Gate
unfolding skip_while_receiver_catches_up
offer [] g = ([], g)
offer (f ∷ fs) g =
    let (skipped, g') = skip_while_receiver_catches_up f.is_key f.has_room g in
    let (fates, end) = offer fs g' in
    (record { is_key = f.is_key; sent = if skipped then false else true } ∷ fates, end)
