-- ===== src/Cast/Routes/Tests.antt =====
-- Runs of feedback.rs, and its theorems at concrete datagrams.
use big_net_screen.Base.{ℕ, ◌≡◌, refl, true, false, none, some, List, [], ◌∷◌, arith}
use big_net_screen.Base.Int.{pos}
use big_net_screen.Base.Outcome.{ok, invalid}
use big_net_screen.Cast.Flow.{AckWindow}
use big_net_screen.Cast.Rtcp.Blocks.{validated_blocks}
use big_net_screen.Cast.Rtcp.Blocks.Loss.{loss_block}
use big_net_screen.Cast.Rtcp.Feedback.{Nack}
use big_net_screen.Cast.Rtcp.Feedback.RoundTrip.{feedback_block}
use big_net_screen.Cast.Routes.{
  FeedbackRoutes, SessionSignals, Track, OfferedStream, new, add_track, route,
}
use big_net_screen.Cast.Routes.Foreign.{route_total}
use big_net_screen.Cast.Routes.Windows.{AllTracks, route-AllTracks}

abbrev streams : List OfferedStream
streams =
    record { index = 0; ssrc = 21; is_video = false }
    ∷ record { index = 1; ssrc = 31; is_video = true }
    ∷ []

abbrev sent_ten : AckWindow
sent_ten = record {
  last_sent = pos 10;
  checkpoint = pos 4;
  newest_reference_time = none;
  last_progress = 0;
}

abbrev video_track : Track
video_track = record { window = sent_ten; nacks = [] }

abbrev routes : FeedbackRoutes
routes = record {
  receiver_ssrcs = (21, 22) ∷ (31, 32) ∷ [];
  tracks = (31, video_track) ∷ [];
  video_ssrc = some 31;
}

routes_run : add_track 31 sent_ten (new streams (0 ∷ 1 ∷ []) (22 ∷ 32 ∷ [])) ≡ routes
unfolding new add_track
routes_run = refl

abbrev signals : SessionSignals
signals = record { key_frame_wanted = false; receiver_alive = 6 }

abbrev one_loss : List Nack
one_loss = record { frame_id = 9; packet_id = 3; bitmask = 0 } ∷ []

abbrev after_accepted : FeedbackRoutes × SessionSignals
after_accepted = (
  record routes {
    tracks =
        (
          31,
          record {
            window = record sent_ten { checkpoint = pos 8; last_progress = 77 };
            nacks = one_loss ∷ [];
          },
        )
        ∷ [];
  },
  record signals { receiver_alive = 7 },
)

accepted_run : route 77 (feedback_block 32 31 8 400 one_loss) (routes, signals) ≡ ok after_accepted
unfolding route
accepted_run = refl

picture_run :
    route 77 (loss_block 32 31) (routes, signals)
    ≡ ok (routes, record { key_frame_wanted = true; receiver_alive = 7 })
unfolding route
picture_run = refl

-- The audio receiver's SSRC with the video stream's.
abbrev mixed_up : List ℕ
mixed_up = feedback_block 22 31 8 400 one_loss

route_total_example :
    ((s : FeedbackRoutes × SessionSignals) × (route 77 (0x81 ∷ 206 ∷ []) (routes, signals) ≡ ok s))
    × (validated_blocks (0x81 ∷ 206 ∷ []) ≡ invalid
        → route 77 (0x81 ∷ 206 ∷ []) (routes, signals) ≡ ok (routes, signals))
route_total_example = route_total 77 (0x81 ∷ 206 ∷ []) routes signals

route-AllTracks_example : AllTracks after_accepted.0
route-AllTracks_example =
    route-AllTracks 77 (feedback_block 32 31 8 400 one_loss) routes signals after_accepted
      (omega arith) (record { window = omega arith; inbox = omega arith }, tt) accepted_run
