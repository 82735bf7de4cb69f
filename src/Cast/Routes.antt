-- ===== src/Cast/Routes.antt =====
-- crates/nd-chromecast/src/mirror_session/feedback.rs: the receiver's RTCP, routed to the tracks.
-- What the reader changes is the state: the windows and the inboxes of the tracks, and the signals.
-- A track's thread drains its inbox elsewhere; the reading of the clock is an argument.
pub mod Foreign
pub mod Windows
mod Tests
use big_net_screen.Base.{
  ℕ, suc, ◌+◌, ◌%◌, ◌^◌, Bool, true, false, not, ◌&&◌, ◌||◌, Option, none, some, List, [], ◌∷◌,
  ◌++◌, length, ltb, ◌==◌, if◌then◌else◌,
}
use big_net_screen.Base.Outcome.{Outcome, ok, invalid, fault, ◌>>=◌}
use big_net_screen.Cast.Flow.{AckWindow, acknowledge}
use big_net_screen.Cast.Rtcp.Blocks.{picture_loss_for}
use big_net_screen.Cast.Rtcp.Feedback.{Nack, CastFeedback, parse_cast_feedbacks}

abbrev pub nack_inbox : ℕ
nack_inbox = 64

pub record Track : Type 0 where
  pub window : AckWindow
  pub nacks : List (List Nack)

-- A `HashMap` from SSRCs is an association list with one entry for each key.
abbrev pub get {ℓ} : {A : Type ℓ} → ℕ → List (ℕ × A) → Option A
get k [] = none
get k ((x, a) ∷ xs) = if k == x then some a else get k xs

abbrev pub put {ℓ} : {A : Type ℓ} → ℕ → A → List (ℕ × A) → List (ℕ × A)
put k a [] = (k, a) ∷ []
put k a ((x, b) ∷ xs) = if k == x then (k, a) ∷ xs else (x, b) ∷ put k a xs

-- What the offer says of a stream, and the answer's two lists.
pub record OfferedStream : Type 0 where
  pub index : ℕ
  pub ssrc : ℕ
  pub is_video : Bool

pub record FeedbackRoutes : Type 0 where
  pub receiver_ssrcs : List (ℕ × ℕ)
  pub tracks : List (ℕ × Track)
  pub video_ssrc : Option ℕ

pub record SessionSignals : Type 0 where
  pub key_frame_wanted : Bool
  pub receiver_alive : ℕ

abbrev pub find_index : ℕ → List OfferedStream → Option OfferedStream
find_index index [] = none
find_index index (s ∷ ss) = if s.index == index then some s else find_index index ss

abbrev pub pair_with : Option OfferedStream → ℕ → List (ℕ × ℕ) → List (ℕ × ℕ)
pair_with none receiver_ssrc pairs = pairs
pair_with (some s) receiver_ssrc pairs = put s.ssrc receiver_ssrc pairs

-- The pairs of the answer, in its order; the shorter list ends them.
unfoldable pub pair_ssrcs : List OfferedStream → List ℕ → List ℕ → List (ℕ × ℕ) → List (ℕ × ℕ)
pair_ssrcs streams [] ssrcs pairs = pairs
pair_ssrcs streams (i ∷ is) [] pairs = pairs
pair_ssrcs streams (i ∷ is) (s ∷ ss) pairs =
    pair_ssrcs streams is ss (pair_with (find_index i streams) s pairs)

abbrev pub includes : ℕ → List ℕ → Bool
includes x [] = false
includes x (y ∷ ys) = (x == y) || includes x ys

-- `Negotiated::video`: the first video stream of the offer that the answer accepted.
abbrev pub video_ssrc_of : List OfferedStream → List ℕ → Option ℕ
video_ssrc_of [] send_indexes = none
video_ssrc_of (s ∷ ss) send_indexes =
    if includes s.index send_indexes && s.is_video
    then some s.ssrc
    else video_ssrc_of ss send_indexes

unfoldable pub new : List OfferedStream → List ℕ → List ℕ → FeedbackRoutes
unfolding pair_ssrcs
new streams send_indexes ssrcs = record {
  receiver_ssrcs = pair_ssrcs streams send_indexes ssrcs [];
  tracks = [];
  video_ssrc = video_ssrc_of streams send_indexes;
}

unfoldable pub add_track : ℕ → AckWindow → FeedbackRoutes → FeedbackRoutes
add_track ssrc window routes = record routes {
  tracks = put ssrc (record { window = window; nacks = [] }) routes.tracks;
}

unfoldable pub alive : SessionSignals → SessionSignals
alive s = record s { receiver_alive = (s.receiver_alive + 1) % 2 ^ 64 }

-- `try_send`: a full inbox drops the batch, and an empty batch is not sent.
unfoldable pub try_send : List Nack → List (List Nack) → List (List Nack)
try_send [] inbox = inbox
try_send (n ∷ ns) inbox = if ltb (length inbox) nack_inbox then inbox ++ ((n ∷ ns) ∷ []) else inbox

-- Whether the feedback comes from the receiver that answered for the stream it is about.
abbrev pub is_ours : FeedbackRoutes → CastFeedback → Bool
is_ours routes f = elim (get f.sender_ssrc routes.receiver_ssrcs) [
  | none ↦ false
  | some receiver ↦ receiver == f.receiver_ssrc
]

-- A feedback for a track: stale feedback leaves all as it was.
unfoldable pub feed :
    ℕ
    → CastFeedback
    → Option Track
    → FeedbackRoutes × SessionSignals
    → FeedbackRoutes × SessionSignals
unfolding acknowledge alive try_send
feed now f none s = s
feed now f (some track) (routes, signals) =
    let (accepted, window) = acknowledge now f.checkpoint_frame_id f.reference_time track.window in
    if accepted
    then (
      record routes {
        tracks =
            put f.sender_ssrc (record { window = window; nacks = try_send f.nacks track.nacks })
              routes.tracks;
      },
      alive signals,
    )
    else (routes, signals)

unfoldable pub apply_feedback :
    ℕ → CastFeedback → FeedbackRoutes × SessionSignals → FeedbackRoutes × SessionSignals
unfolding feed
apply_feedback now f (routes, signals) =
    if is_ours routes f
    then feed now f (get f.sender_ssrc routes.tracks) (routes, signals)
    else (routes, signals)

unfoldable pub apply_all :
    ℕ → List CastFeedback → FeedbackRoutes × SessionSignals → FeedbackRoutes × SessionSignals
unfolding apply_feedback
apply_all now [] s = s
apply_all now (f ∷ fs) s = apply_all now fs (apply_feedback now f s)

-- The receiver's SSRC and ours, of the video track.
abbrev pub video_pair : FeedbackRoutes → Option (ℕ × ℕ)
video_pair routes = elim routes.video_ssrc [
  | none ↦ none
  | some sender ↦ elim (get sender routes.receiver_ssrcs) [
    | none ↦ none
    | some receiver ↦ some (receiver, sender)
  ]
]

unfoldable pub wants_picture : List ℕ → Option (ℕ × ℕ) → Outcome Bool
unfolding picture_loss_for
wants_picture packet none = ok false
wants_picture packet (some (receiver, sender)) = picture_loss_for packet receiver sender

unfoldable pub route :
    ℕ → List ℕ → FeedbackRoutes × SessionSignals → Outcome (FeedbackRoutes × SessionSignals)
unfolding wants_picture parse_cast_feedbacks apply_all alive
route now packet (routes, signals) = do
  wanted ← wants_picture packet (video_pair routes)
  let signals' = (if wanted then record (alive signals) { key_frame_wanted = true } else signals)
  feedbacks ← parse_cast_feedbacks packet
  ok (apply_all now feedbacks (routes, signals'))
