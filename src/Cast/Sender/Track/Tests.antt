-- ===== src/Cast/Sender/Track/Tests.antt =====
-- Runs of a whole track of sender.rs, and its theorem at a concrete session.
use big_net_screen.Base.{
  ℕ, ◌+◌, ◌*◌, ◌%◌, ◌≤◌, ◌≡◌, ◌≢◌, refl, true, false, none, some, List, [], ◌∷◌, replicate, slice,
  get_or, arith,
}
use big_net_screen.Cast.Flow.{max_unacked_frames, pending, acknowledge}
use big_net_screen.Cast.Rtp.{encrypt_frame, build_packet}
use big_net_screen.Cast.Sender.Track.{
  StreamSender, Readings, delivered, interrupted, goes_on, ended, panicked, Sample, encoded, Offer,
  new, pump,
}
use big_net_screen.Cast.Sender.Track.Continuity.{IsTrack}
use big_net_screen.Cast.Sender.Track.Session.{Reach, here, next, pumped, acknowledged, Reach-sound}

abbrev stream : List ℕ → List ℕ → ℕ → ℕ
stream key iv position = (position * 7 + get_or iv 11 0) % 256

abbrev offer : Offer
offer = record {
  ssrc = 7;
  payload_type = 96;
  key = replicate 16 1;
  iv_mask = replicate 16 2;
  is_video = true;
}

abbrev fresh : StreamSender
fresh = new offer 60 true 0

abbrev quick : Readings
quick = record {
  sent_now = 10;
  kept_now = 11;
  flow_now = 12;
  deliver = λ k. delivered;
  report_before = record { now = 10; running = some 5 };
  report_after = record { now = 12; running = some 7 };
}

-- The first key frame leaves with a report, and its id is used up.
abbrev after_key : StreamSender
after_key = (pump stream 9 quick (encoded (some (1 ∷ 2 ∷ 3 ∷ [])) true 0) fresh).1

first_key_run : (pump stream 9 quick (encoded (some (1 ∷ 2 ∷ 3 ∷ [])) true 0) fresh).0 ≡ goes_on
unfolding pump encrypt_frame slice build_packet new
first_key_run = refl

key_state :
    (after_key.frame_id ≡ 1)
    × (after_key.last_report ≡ some 10)
    × (after_key.stats.packets ≡ 1)
    × (after_key.stats.octets ≡ 9)
unfolding pump encrypt_frame slice build_packet new
key_state = (refl, refl, refl, refl)

-- A delta frame before any key frame is dropped, with a request for one.
early_delta : pump stream 9 quick (encoded (some (1 ∷ [])) false 0) fresh ≡ (
  goes_on,
  record fresh {
    gate = record fresh.gate {
      key_frame_request = true;
      resync_requested = true;
      frames_dropped = 1;
    };
  },
)
unfolding pump new
early_delta = refl

-- A session that stops while the packets leave.
abbrev stopping : Readings
stopping = record quick { deliver = λ k. interrupted }

stopped_run : (pump stream 9 stopping (encoded (some (1 ∷ [])) true 0) fresh).0 ≡ ended
unfolding pump encrypt_frame slice build_packet new
stopped_run = refl

abbrev acked : StreamSender
acked = record after_key { window = (acknowledge 40 0 none after_key.window).1 }

key_pumped :
    pump stream 9 quick (encoded (some (1 ∷ 2 ∷ 3 ∷ [])) true 0) fresh ≡ (goes_on, after_key)
key_pumped = λ i. (first_key_run i, after_key)

Reach-acked : Reach stream (new offer 60 true 0) acked
Reach-acked =
    next (next here (pumped 9 quick (encoded (some (1 ∷ 2 ∷ 3 ∷ [])) true 0) key_pumped))
      (acknowledged 40 0 none (omega arith))

Reach-sound_example :
    IsTrack acked
    × (pending acked.window ≤ max_unacked_frames)
    × ((now : ℕ) (r : Readings) (sample : Sample) → (pump stream now r sample acked).0 ≢ panicked)
Reach-sound_example = Reach-sound stream offer 60 true 0 acked Reach-acked
