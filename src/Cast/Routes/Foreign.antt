-- ===== src/Cast/Routes/Foreign.antt =====
-- What datagrams of others do to a session of feedback.rs.
use big_net_screen.Base.{
  ℕ, ◌≡◌, refl, ap, Bool, true, false, Option, none, some, List, [], ◌∷◌, All, if◌then◌else◌,
}
use big_net_screen.Base.Outcome.{ok, invalid}
use big_net_screen.Cast.Rtcp.Blocks.{validated_blocks, picture_loss_for}
use big_net_screen.Cast.Rtcp.Blocks.Readers.{picture_loss_for_total}
use big_net_screen.Cast.Rtcp.Feedback.{CastFeedback, parse_cast_feedbacks}
use big_net_screen.Cast.Rtcp.Feedback.Total.{parse_cast_feedbacks_total}
use big_net_screen.Cast.Routes.{
  FeedbackRoutes, SessionSignals, is_ours, apply_feedback, apply_all, video_pair, wants_picture,
  alive, route,
}

apply_foreign :
    (now : ℕ) (feedbacks : List CastFeedback) (routes : FeedbackRoutes) (signals : SessionSignals)
    → All (λ f. is_ours routes f ≡ false) feedbacks
    → apply_all now feedbacks (routes, signals) ≡ (routes, signals)
unfolding apply_all apply_feedback
apply_foreign now [] routes signals h = refl
apply_foreign now (f ∷ fs) routes signals h = rw h.0 (apply_foreign now fs routes signals h.1)

-- A datagram that does not name both ends of the session, in any of its blocks, changes nothing:
-- no window, no inbox and no signal.
pub route_foreign :
    (now : ℕ) (packet : List ℕ) (routes : FeedbackRoutes) (signals : SessionSignals)
    (feedbacks : List CastFeedback)
    → wants_picture packet (video_pair routes) ≡ ok false
    → parse_cast_feedbacks packet ≡ ok feedbacks
    → All (λ f. is_ours routes f ≡ false) feedbacks
    → route now packet (routes, signals) ≡ ok (routes, signals)
unfolding route
route_foreign now packet routes signals feedbacks calm parsed foreign =
    rw (calm, parsed) (ap ok (apply_foreign now feedbacks routes signals foreign))

malformed_picture :
    (packet : List ℕ) (pair : Option (ℕ × ℕ))
    → validated_blocks packet ≡ invalid
    → wants_picture packet pair ≡ ok false
unfolding wants_picture picture_loss_for
malformed_picture packet none e = refl
malformed_picture packet (some (receiver, sender)) e = rw (e, wants_picture, picture_loss_for)

malformed_feedbacks :
    (packet : List ℕ) → validated_blocks packet ≡ invalid → parse_cast_feedbacks packet ≡ ok []
unfolding parse_cast_feedbacks
malformed_feedbacks packet e = rw (e, parse_cast_feedbacks)

picture_total :
    (packet : List ℕ) (pair : Option (ℕ × ℕ))
    → (wanted : Bool) × (wants_picture packet pair ≡ ok wanted)
unfolding wants_picture
picture_total packet none = (false, refl)
picture_total packet (some (receiver, sender)) = picture_loss_for_total packet receiver sender

-- `route` returns on every datagram, and one that fails the validation changes nothing.
pub route_total :
    (now : ℕ) (packet : List ℕ) (routes : FeedbackRoutes) (signals : SessionSignals)
    → ((s : FeedbackRoutes × SessionSignals) × (route now packet (routes, signals) ≡ ok s))
      × (validated_blocks packet ≡ invalid
          → route now packet (routes, signals) ≡ ok (routes, signals))
unfolding route
route_total now packet routes signals =
    let (wanted, w) = picture_total packet (video_pair routes) in
    let (feedbacks, p) = parse_cast_feedbacks_total packet in
    (
      (
        apply_all now feedbacks (
          routes,
          if wanted then record (alive signals) { key_frame_wanted = true } else signals,
        ),
        rw (w, p),
      ),
      λ bad.
          route_foreign now packet routes signals []
            (malformed_picture packet (video_pair routes) bad) (malformed_feedbacks packet bad) tt,
    )
