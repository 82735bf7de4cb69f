-- ===== src/Cast/Sender/Track/Session.antt =====
-- A track of sender.rs over a whole session: its own thread pumps frames and serves repairs, and the
-- reader of the receiver's feedback moves its window between them.
use mathlib.Core.Path.{subst}
use big_net_screen.Base.{
  ℕ, ◌-◌, not, ◌&&◌, ltb, leb, ◌==◌, if-holds, ◌≤◌, ◌<◌, ◌≡◌, ◌≢◌, refl, sym, ap, ◌∙◌, Bool, Option,
  none, some, List, arith,
}
use big_net_screen.Base.Int.{ℤ, pos, ◌+ℤ◌}
use big_net_screen.Cast.Flow.{AckWindow, max_unacked_frames, pending, acknowledge}
use big_net_screen.Cast.Flow.Window.{acknowledge-IsValid, pending_distance}
use big_net_screen.Cast.Rtcp.Feedback.{Nack}
use big_net_screen.Cast.Sender.Gate.{take_key_frame_request}
use big_net_screen.Cast.Sender.Repair.{Turn, retransmit}
use big_net_screen.Cast.Sender.Track.{
  StreamSender, Readings, Pumped, goes_on, ended, failed, panicked, Sample, pump, Offer, new,
  newest, count_probe, probe_stalled_receiver, rtcp_interval,
}
use big_net_screen.Cast.Sender.Track.Continuity.{IsTrack, Good, pump-Good}

module _ (keystream : List ℕ → List ℕ → ℕ → ℕ) where
  pub data Step : StreamSender → StreamSender → Type 0 where
    pumped :
        {s t : StreamSender} (now : ℕ) (r : Readings) (sample : Sample)
        → pump keystream now r sample s ≡ (goes_on, t)
        → Step s t
    acknowledged :
        {s : StreamSender} (now wire : ℕ) (time : Option ℕ)
        → wire < 256
        → Step s (record s { window = (acknowledge now wire time s.window).1 })
    repaired :
        {s : StreamSender} (turns : ℕ → Turn) (nacks : List Nack)
        → Step s (record s {
          stats = (retransmit s.history s.window.checkpoint turns nacks (s.stats, s.repairs)).1;
          repairs = (retransmit s.history s.window.checkpoint turns nacks (s.stats, s.repairs)).2;
        })
    probed :
        {s : StreamSender} (now : ℕ) (accepted : Bool)
        → Step s (probe_stalled_receiver now accepted s)
    request_taken :
        {s : StreamSender} → Step s (record s { gate = (take_key_frame_request s.gate).1 })

  pub data Reach (s : StreamSender) : StreamSender → Type 0 where
    here : Reach s s
    next : {t u : StreamSender} → Reach s t → Step t u → Reach s u

last-acknowledge :
    (now wire : ℕ) (time : Option ℕ) (w : AckWindow)
    → (acknowledge now wire time w).1.last_sent ≡ w.last_sent
unfolding acknowledge
last-acknowledge now wire time w = ground arith

acknowledged-IsTrack :
    (now wire : ℕ) (time : Option ℕ) (s : StreamSender)
    → wire < 256
    → IsTrack s
    → IsTrack (record s { window = (acknowledge now wire time s.window).1 })
acknowledged-IsTrack now wire time s byte v = record {
  window = acknowledge-IsValid now wire time byte v.window;
  last = v.last ∙ ap (λ (last : ℤ). last +ℤ pos 1) (sym (last-acknowledge now wire time s.window));
  history = v.history;
  fits = v.fits;
  packetizer = v.packetizer;
  sequence = v.sequence;
}

-- Only the statistics and the time of the last probe are changed by a probe.
count_probe-IsTrack :
    (accepted : Bool) (o : Option (List ℕ)) (s : StreamSender)
    → IsTrack s
    → IsTrack (count_probe accepted o s)
unfolding count_probe
count_probe-IsTrack accepted none s v = v
count_probe-IsTrack accepted (some packet) s v =
    if-holds IsTrack accepted _ s
      (λ _. record {
        window = v.window;
        last = v.last;
        history = v.history;
        fits = v.fits;
        packetizer = v.packetizer;
        sequence = v.sequence;
      })
      (λ _. v)

probe-IsTrack :
    (now : ℕ) (accepted : Bool) (s : StreamSender)
    → IsTrack s
    → IsTrack (probe_stalled_receiver now accepted s)
unfolding probe_stalled_receiver
probe-IsTrack now accepted s v =
    if-holds IsTrack (ltb (now - s.last_probe) rtcp_interval) s _ (λ _. v)
      (λ _.
        if-holds IsTrack
          (not (pending s.window == 0) && leb rtcp_interval (now - s.window.last_progress)) _ s
          (λ _.
            count_probe-IsTrack accepted (newest s.history) (record s { last_probe = now })
              (record {
                window = v.window;
                last = v.last;
                history = v.history;
                fits = v.fits;
                packetizer = v.packetizer;
                sequence = v.sequence;
              }))
          (λ _. v))

-- A new track.
pub new-IsTrack :
    (o : Offer) (fps : ℕ) (rtcp_enabled : Bool) (now : ℕ) → IsTrack (new o fps rtcp_enabled now)
unfolding new ◌+ℤ◌
new-IsTrack o fps rtcp_enabled now = record {
  window = omega arith;
  last = refl;
  history = record { small = omega arith; old = omega arith; consecutive = tt };
  fits = tt;
  packetizer = refl;
  sequence = omega arith;
}

no_panic : (result : Pumped × StreamSender) → Good result → result.0 ≢ panicked
no_panic (goes_on, s) g e = cc
no_panic (ended, s) g e = cc
no_panic (failed, s) g e = cc
no_panic (panicked, s) g e = g

module _ (keystream : List ℕ → List ℕ → ℕ → ℕ) where
  Step-IsTrack : {s t : StreamSender} → Step keystream s t → IsTrack s → IsTrack t
  Step-IsTrack (pumped {s} now r sample e) v = subst Good e (pump-Good keystream now r sample s v)
  Step-IsTrack (acknowledged {s} now wire time byte) v = acknowledged-IsTrack now wire time s byte v
  Step-IsTrack (repaired {s} turns nacks) v = record {
    window = v.window;
    last = v.last;
    history = v.history;
    fits = v.fits;
    packetizer = v.packetizer;
    sequence = v.sequence;
  }
  Step-IsTrack (probed {s} now accepted) v = probe-IsTrack now accepted s v
  Step-IsTrack (request_taken {s}) v = record {
    window = v.window;
    last = v.last;
    history = v.history;
    fits = v.fits;
    packetizer = v.packetizer;
    sequence = v.sequence;
  }

  Reach-IsTrack : {s t : StreamSender} → IsTrack s → Reach keystream s t → IsTrack t
  Reach-IsTrack v here = v
  Reach-IsTrack v (next r st) = Step-IsTrack st (Reach-IsTrack v r)

  -- However frames, feedback, probes and repair requests interleave on a new track, as long as it
  -- goes on: its window, its frame ids, its history and its packets agree, at most 120 frames are
  -- unacknowledged, and no sample that comes next makes it panic.
  pub Reach-sound :
      (o : Offer) (fps : ℕ) (rtcp_enabled : Bool) (now : ℕ) (t : StreamSender)
      → Reach keystream (new o fps rtcp_enabled now) t
      → IsTrack t
        × (pending t.window ≤ max_unacked_frames)
        × ((now : ℕ) (r : Readings) (sample : Sample)
            → (pump keystream now r sample t).0 ≢ panicked)
  Reach-sound o fps rtcp_enabled now t reach =
      let track = Reach-IsTrack (new-IsTrack o fps rtcp_enabled now) reach in
      (
        track,
        (pending_distance track.window).0,
        λ now r sample.
            no_panic (pump keystream now r sample t) (pump-Good keystream now r sample t track),
      )
