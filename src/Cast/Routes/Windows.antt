-- ===== src/Cast/Routes/Windows.antt =====
-- The windows and the inboxes of the tracks under the feedback of feedback.rs.
use big_net_screen.Base.{
  ℕ, ◌+◌, ◌≤◌, ◌≡◌, refl, Bool, true, Option, none, some, List, [], ◌∷◌, ◌++◌, length,
  length-append, All, ltb, ◌==◌, if◌then◌else◌, if-holds, arith,
}
use mathlib.Core.Path.{subst}
use big_net_screen.Base.Bytes.{IsByte}
use big_net_screen.Base.Outcome.{Outcome, ok, invalid, fault, ◌>>=◌, Returns}
use big_net_screen.Cast.Flow.{acknowledge}
use big_net_screen.Cast.Flow.Window.{IsValid, acknowledge-IsValid}
use big_net_screen.Cast.Rtcp.Feedback.{Nack, CastFeedback, parse_cast_feedbacks}
use big_net_screen.Cast.Rtcp.Feedback.Bytes.{WireId, parse_cast_feedbacks_bytes}
use big_net_screen.Cast.Routes.{
  FeedbackRoutes, SessionSignals, Track, get, put, is_ours, try_send, feed, apply_feedback,
  apply_all, video_pair, wants_picture, alive, route, nack_inbox,
}

-- A track's window is one that flow.rs reaches, and its inbox is within its bound.
pub record IsTrack (t : Track) : Type 0 where
  pub window : IsValid t.window
  pub inbox : length t.nacks ≤ nack_inbox

abbrev pub AllTracks : FeedbackRoutes → Type 0
AllTracks routes = All (λ (e : ℕ × Track). IsTrack e.1) routes.tracks

abbrev Maybe : Option Track → Type 0
Maybe none = Unit
Maybe (some t) = IsTrack t

get-IsTrack :
    (k : ℕ) (tracks : List (ℕ × Track))
    → All (λ (e : ℕ × Track). IsTrack e.1) tracks
    → Maybe (get k tracks)
get-IsTrack k [] h = tt
get-IsTrack k ((x, t) ∷ ts) h =
    if-holds Maybe (k == x) (some t) (get k ts) (λ _. h.0) (λ _. get-IsTrack k ts h.1)

put-IsTrack :
    (k : ℕ) (t : Track) (tracks : List (ℕ × Track))
    → IsTrack t
    → All (λ (e : ℕ × Track). IsTrack e.1) tracks
    → All (λ (e : ℕ × Track). IsTrack e.1) (put k t tracks)
put-IsTrack k t [] v h = (v, tt)
put-IsTrack k t ((x, u) ∷ ts) v h =
    if-holds (All (λ (e : ℕ × Track). IsTrack e.1)) (k == x) ((k, t) ∷ ts) ((x, u) ∷ put k t ts)
      (λ _. (v, h.1)) (λ _. (h.0, put-IsTrack k t ts v h.1))

try_send_bounded :
    (batch : List Nack) (inbox : List (List Nack))
    → length inbox ≤ nack_inbox
    → length (try_send batch inbox) ≤ nack_inbox
unfolding try_send
try_send_bounded [] inbox h = h
try_send_bounded (n ∷ ns) inbox h =
    if-holds (λ (i : List (List Nack)). length i ≤ nack_inbox) (ltb (length inbox) nack_inbox)
      (inbox ++ ((n ∷ ns) ∷ [])) inbox
      (λ room. fits (length inbox) room (length-append inbox ((n ∷ ns) ∷ []))) (λ _. h)
  where
    fits : (n : ℕ) {m : ℕ} → ltb n nack_inbox ≡ true → m ≡ n + 1 → m ≤ nack_inbox
    fits n room e = ground arith

feed-AllTracks :
    (now : ℕ) (f : CastFeedback) (o : Option Track) (routes : FeedbackRoutes)
    (signals : SessionSignals)
    → WireId f
    → Maybe o
    → AllTracks routes
    → AllTracks (feed now f o (routes, signals)).0
unfolding feed
feed-AllTracks now f none routes signals byte v h = h
feed-AllTracks now f (some track) routes signals byte v h =
    let (accepted, window) = acknowledge now f.checkpoint_frame_id f.reference_time track.window in
    if-holds (λ (s : FeedbackRoutes × SessionSignals). AllTracks s.0) accepted _ (routes, signals)
      (λ _.
        put-IsTrack f.sender_ssrc (record { window = window; nacks = try_send f.nacks track.nacks })
          routes.tracks
          (record {
            window = acknowledge-IsValid now f.checkpoint_frame_id f.reference_time byte v.window;
            inbox = try_send_bounded f.nacks track.nacks v.inbox;
          })
          h)
      (λ _. h)

apply_all-AllTracks :
    (now : ℕ) (feedbacks : List CastFeedback) (routes : FeedbackRoutes) (signals : SessionSignals)
    → All WireId feedbacks
    → AllTracks routes
    → AllTracks (apply_all now feedbacks (routes, signals)).0
unfolding apply_all apply_feedback
apply_all-AllTracks now [] routes signals byte h = h
apply_all-AllTracks now (f ∷ fs) routes signals byte h = apply_all-AllTracks now fs _ _ byte.1 (
    if-holds (λ (s : FeedbackRoutes × SessionSignals). AllTracks s.0) (is_ours routes f) _
      (routes, signals)
      (λ _.
        feed-AllTracks now f (get f.sender_ssrc routes.tracks) routes signals byte.0
          (get-IsTrack f.sender_ssrc routes.tracks h) h)
      (λ _. h))

invalid_ok : {s : FeedbackRoutes × SessionSignals} → invalid ≡ ok s → ⊥
invalid_ok e = cc

fault_ok : {s : FeedbackRoutes × SessionSignals} → fault ≡ ok s → ⊥
fault_ok e = cc

read_ok :
    (now : ℕ) (routes : FeedbackRoutes) (signals : SessionSignals) (picture : Outcome Bool)
    (parsed : Outcome (List CastFeedback)) (s : FeedbackRoutes × SessionSignals)
    → ((feedbacks : List CastFeedback) → parsed ≡ ok feedbacks → All WireId feedbacks)
    → AllTracks routes
    → (picture >>= λ wanted. parsed >>= λ feedbacks. ok (
        apply_all now feedbacks
          (routes, if wanted then record (alive signals) { key_frame_wanted = true } else signals)))
      ≡ ok s
    → AllTracks s.0
read_ok now routes signals (ok wanted) (ok feedbacks) s byte h e =
    subst (Returns (λ (s : FeedbackRoutes × SessionSignals). AllTracks s.0)) e
      (apply_all-AllTracks now feedbacks routes _ (byte feedbacks refl) h)
read_ok now routes signals (ok wanted) invalid s byte h e = absurd (invalid_ok e)
read_ok now routes signals (ok wanted) fault s byte h e = absurd (fault_ok e)
read_ok now routes signals invalid parsed s byte h e = absurd (invalid_ok e)
read_ok now routes signals fault parsed s byte h e = absurd (fault_ok e)

-- Every datagram, the receiver's or not, leaves the windows of all tracks valid, so that at most
-- 120 frames are ever unacknowledged, and no inbox grows past 64 batches.
pub route-AllTracks :
    (now : ℕ) (packet : List ℕ) (routes : FeedbackRoutes) (signals : SessionSignals)
    (s : FeedbackRoutes × SessionSignals)
    → All IsByte packet
    → AllTracks routes
    → route now packet (routes, signals) ≡ ok s
    → AllTracks s.0
unfolding route
route-AllTracks now packet routes signals s bytes h e =
    read_ok now routes signals (wants_picture packet (video_pair routes))
      (parse_cast_feedbacks packet) s
      (λ feedbacks p. parse_cast_feedbacks_bytes packet feedbacks bytes p) h e
