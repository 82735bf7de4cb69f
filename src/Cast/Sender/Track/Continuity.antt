-- ===== src/Cast/Sender/Track/Continuity.antt =====
-- The state that a track of sender.rs keeps from frame to frame.
use mathlib.Core.Path.{subst}
use big_net_screen.Base.{
  ℕ, ◌+◌, ◌-◌, ◌^◌, ◌≤◌, ◌<◌, ◌≡◌, refl, sym, ap, ◌∙◌, Bool, true, false, not, ◌&&◌, ◌||◌, Option,
  none, some, List, [], ◌∷◌, ◌++◌, length, All, All-append, ltb, ◌==◌, arith, if◌then◌else◌,
  if-holds,
}
use big_net_screen.Base.Int.{ℤ, pos, ◌+ℤ◌}
use big_net_screen.Cast.Flow.{AckWindow, pending, can_send, sent}
use big_net_screen.Cast.Flow.Window.{IsValid, sent-IsValid}
use big_net_screen.Cast.Rtp.{Packetizer, max_packet_size}
use big_net_screen.Cast.Rtp.Split.{packetize-joined}
use big_net_screen.Cast.Sender.Gate.{Gate, skip_while_receiver_catches_up}
use big_net_screen.Cast.Sender.Clock.{record_frame}
use big_net_screen.Cast.Sender.History.{HistoryEntry, prune_history, keep}
use big_net_screen.Cast.Sender.History.Window.{IsWindow, keep-IsWindow}
use big_net_screen.Cast.Sender.Repair.Resending.{Fits}
use big_net_screen.Cast.Sender.Track.{
  StreamSender, ReportReading, Readings, Delivery, delivered, interrupted, refused, Pumped, goes_on,
  ended, failed, panicked, Sample, not_ready, end_of_stream, unusable, encoded, report_at,
  is_recent, receiver_silence_timeout, max_encoded_frame_bytes, send_report_if_due, send_packets,
  keep_frame, after_packets, split_frame, deliver_frame, frame_of, send_frame, send_mapped, pump,
}

has_room :
    (is_key room : Bool) (g : Gate)
    → (skip_while_receiver_catches_up is_key room g).0 ≡ false
    → room ≡ true
unfolding skip_while_receiver_catches_up
has_room is_key room g h = ground arith

-- The parts of a track agree: the window is valid and ends with the frame before the next one, the
-- history is the window of the frames up to it, and every packet in it is one that fits.
pub record IsTrack (s : StreamSender) : Type 0 where
  pub window : IsValid s.window
  pub last : pos s.frame_id ≡ s.window.last_sent +ℤ pos 1
  pub history : IsWindow s.frame_id s.history
  pub fits : Fits s.history
  pub packetizer : s.packetizer.packet_limit ≡ max_packet_size
  pub sequence : s.packetizer.sequence < 2 ^ 16

-- If the track goes on, its parts agree.
abbrev pub Good : Pumped × StreamSender → Type 0
Good (goes_on, s) = IsTrack s
Good (ended, s) = Unit
Good (failed, s) = Unit
Good (panicked, s) = ⊥

-- Only the time of the last report is changed by a report.
report_at_changes :
    (P : StreamSender → Type 0) (now : ℕ) (running : Option ℕ) (s : StreamSender)
    → ((t : Option ℕ) → P (record s { last_report = t }))
    → P (report_at now running s).1
unfolding report_at
report_at_changes P now none s h = h s.last_report
report_at_changes P now (some running) s h = h (some now)

report_changes :
    (P : StreamSender → Type 0) (r : ReportReading) (s : StreamSender)
    → ((t : Option ℕ) → P (record s { last_report = t }))
    → P (send_report_if_due r s).1
unfolding send_report_if_due
report_changes P r s h =
    if-holds (λ (o : Option (List ℕ) × StreamSender). P o.1)
      (not s.rtcp_enabled || (not s.has_media || is_recent r.now s.last_report)) (none, s) _
      (λ _. h s.last_report) (λ _. report_at_changes P r.now r.running s h)

prune-Fits :
    (now : ℕ) (acknowledged : ℤ) (history : List HistoryEntry)
    → Fits history
    → Fits (prune_history now acknowledged history)
unfolding prune_history
prune-Fits now acknowledged [] f = tt
prune-Fits now acknowledged (e ∷ es) f =
    if-holds Fits _ (prune_history now acknowledged es) (e ∷ es)
      (λ _. prune-Fits now acknowledged es f.1) (λ _. f)

keep-Fits :
    (entry : HistoryEntry) (now : ℕ) (acknowledged : ℤ) (history : List HistoryEntry)
    → All (λ (p : List ℕ). length p ≤ max_packet_size) entry.packets
    → Fits history
    → Fits (keep entry now acknowledged history)
unfolding keep
keep-Fits entry now acknowledged history e f =
    prune-Fits now acknowledged (history ++ (entry ∷ []))
      (All-append _ history (entry ∷ []) f (e, tt))

-- A frame is in the window, and not yet in the history.
record IsSending (packets : List (List ℕ)) (s : StreamSender) : Type 0 where
  window : IsValid s.window
  last : s.window.last_sent ≡ pos s.frame_id
  history : IsWindow s.frame_id s.history
  fits : Fits s.history
  sizes : All (λ (p : List ℕ). length p ≤ max_packet_size) packets
  packetizer : s.packetizer.packet_limit ≡ max_packet_size
  sequence : s.packetizer.sequence < 2 ^ 16

one_more : (id : ℕ) (last : ℤ) → last ≡ pos id → pos (id + 1) ≡ last +ℤ pos 1
unfolding ◌+ℤ◌
one_more id last e = rw e (ground arith)

-- The frame is kept, and its id is used up.
kept :
    (packets : List (List ℕ)) (s : StreamSender)
    → IsTrack s
    → (e : Bool) → Good (if e then (goes_on, s) else (failed, s))
kept packets s t true = t
kept packets s t false = tt

keep_frame-Good :
    (r : Readings) (pts : ℕ) (packets : List (List ℕ)) (s : StreamSender)
    → IsSending packets s
    → Good (keep_frame r pts packets s)
unfolding keep_frame
keep_frame-Good r pts packets s v =
    let entry : HistoryEntry = record {
      frame_id = s.frame_id;
      sent = r.kept_now;
      packets = packets;
    } in
    let after = record s {
      history = keep entry r.kept_now s.window.checkpoint s.history;
      flow = record_frame r.flow_now pts s.expected_frame_interval s.flow;
    } in
    report_changes
      (λ s'. Good (
        if ltb (s.frame_id + 1) (2 ^ 32)
        then (goes_on, record s' { frame_id = s.frame_id + 1 })
        else (failed, s')))
      r.report_after after
      λ t.
        if-holds Good (ltb (s.frame_id + 1) (2 ^ 32)) _ _
          (λ _. record {
            window = v.window;
            last = one_more s.frame_id s.window.last_sent v.last;
            history =
                subst (λ (n : ℕ). IsWindow n (keep entry r.kept_now s.window.checkpoint s.history))
                  (omega arith)
                  (keep-IsWindow entry r.kept_now s.window.checkpoint s.history v.history);
            fits = keep-Fits entry r.kept_now s.window.checkpoint s.history v.sizes v.fits;
            packetizer = v.packetizer;
            sequence = v.sequence;
          })
          (λ _. tt)

after_packets-Good :
    (r : Readings) (pts : ℕ) (packets : List (List ℕ)) (end : Delivery) (s : StreamSender)
    → IsSending packets s
    → Good (after_packets r pts packets end s)
unfolding after_packets
after_packets-Good r pts packets delivered s v = keep_frame-Good r pts packets s v
after_packets-Good r pts packets interrupted s v = tt
after_packets-Good r pts packets refused s v = tt

last-sent : (now id : ℕ) (w : AckWindow) → (sent now id w).last_sent ≡ pos id
unfolding sent
last-sent now id w = refl

deliver_frame-Good :
    (r : Readings) (pts : ℕ) (packets : List (List ℕ)) (packetizer : Packetizer) (s : StreamSender)
    → IsTrack s
    → can_send s.window ≡ true
    → All (λ (p : List ℕ). length p ≤ max_packet_size) packets
    → packetizer.packet_limit ≡ max_packet_size
    → packetizer.sequence < 2 ^ 16
    → Good (deliver_frame r pts packets packetizer s)
unfolding deliver_frame
deliver_frame-Good r pts packets packetizer s v room sizes limit sequence =
    let recorded = record s {
      packetizer = packetizer;
      window = sent r.sent_now s.frame_id s.window;
      has_media = true;
    } in
    report_changes
      (λ s'.
        let (end, stats) = send_packets r.deliver 0 packets s'.stats in
        Good (after_packets r pts packets end (record s' { stats = stats })))
      r.report_before recorded
      λ t.
        let (end, stats) = send_packets r.deliver 0 packets s.stats in
        after_packets-Good r pts packets end (record recorded { last_report = t; stats = stats })
          (record {
            window = sent-IsValid r.sent_now s.frame_id v.window room v.last;
            last = last-sent r.sent_now s.frame_id s.window;
            history = v.history;
            fits = v.fits;
            sizes = sizes;
            packetizer = limit;
            sequence = sequence;
          })

module _ (keystream : List ℕ → List ℕ → ℕ → ℕ) where
  send_frame-Good :
      (r : Readings) (bytes : List ℕ) (is_key : Bool) (pts : ℕ) (s : StreamSender)
      → IsTrack s
      → can_send s.window ≡ true
      → Good (send_frame keystream r bytes is_key pts s)
  unfolding send_frame split_frame
  send_frame-Good r bytes is_key pts s v room =
      let (packets, p', e, _, _, _, sizes, moved) =
        packetize-joined s.packetizer (frame_of keystream bytes is_key pts s) v.packetizer
          v.sequence in
      subst (λ o. Good (split_frame r pts o s)) (sym e)
        (deliver_frame-Good r pts packets p' s v room sizes
          (ap (λ (p : Packetizer). p.packet_limit) moved ∙ v.packetizer)
          (subst (λ (p : Packetizer). p.sequence < 2 ^ 16) (sym moved) (omega arith)))

  send_mapped-Good :
      (r : Readings) (bytes : Option (List ℕ)) (is_key : Bool) (pts : ℕ) (s : StreamSender)
      → IsTrack s
      → can_send s.window ≡ true
      → Good (send_mapped keystream r bytes is_key pts s)
  unfolding send_mapped
  send_mapped-Good r none is_key pts s v room = tt
  send_mapped-Good r (some bytes) is_key pts s v room =
      if-holds Good (ltb max_encoded_frame_bytes (length bytes)) _ _ (λ _. tt)
        (λ _. send_frame-Good r bytes is_key pts s v room)

  with_gate : (gate : Gate) (s : StreamSender) → IsTrack s → IsTrack (record s { gate = gate })
  with_gate gate s v = record {
    window = v.window;
    last = v.last;
    history = v.history;
    fits = v.fits;
    packetizer = v.packetizer;
    sequence = v.sequence;
  }

  pub pump-Good :
      (now : ℕ) (r : Readings) (sample : Sample) (s : StreamSender)
      → IsTrack s
      → Good (pump keystream now r sample s)
  unfolding pump
  pump-Good now r not_ready s v = v
  pump-Good now r end_of_stream s v = tt
  pump-Good now r unusable s v = tt
  pump-Good now r (encoded bytes is_key pts) s v =
      let (skipped, gate) = skip_while_receiver_catches_up is_key (can_send s.window) s.gate in
      if-holds Good
        (not (pending s.window == 0) && ltb receiver_silence_timeout (now - s.window.last_progress))
        _ _ (λ _. tt)
        (λ _.
          if-holds Good skipped _ _ (λ _. with_gate gate s v)
            (λ passed.
              send_mapped-Good r bytes is_key pts (record s { gate = gate }) (with_gate gate s v)
                (has_room is_key (can_send s.window) s.gate passed)))
