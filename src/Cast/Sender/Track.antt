-- ===== src/Cast/Sender/Track.antt =====
-- The whole sender of a track in sender.rs: `new`, `pump`, `send_frame`, `send_report_if_due` and
-- `probe_stalled_receiver`, over the parts that the modules beside this one model. What the code reads of the pipeline, the clock and
-- the socket while it handles a frame is an argument.
pub mod Continuity
pub mod Session
mod Tests
use big_net_screen.Base.{
  ℕ, suc, ◌+◌, ◌-◌, ◌*◌, ◌/◌, ◌%◌, ◌^◌, max, Bool, true, false, not, ◌&&◌, ◌||◌, Option, none, some,
  List, [], ◌∷◌, length, ltb, leb, ◌==◌, if◌then◌else◌,
}
use big_net_screen.Cast.Flow.{new as new_window, AckWindow, pending, can_send, sent}
use big_net_screen.Cast.Rtp.{new as new_packetizer, Packetizer, Frame, packetize, encrypt_frame}
use big_net_screen.Cast.Rtcp.Report.{
  SinceEpoch, SenderStats, record_packet, ntp_timestamp, build_sender_report,
}
use big_net_screen.Cast.Sender.Gate.{new as new_gate, Gate, skip_while_receiver_catches_up}
use big_net_screen.Cast.Sender.Clock.{FlowWatch, rtp_ticks, record_frame}
use big_net_screen.Cast.Sender.History.{HistoryEntry, keep}
use big_net_screen.Cast.Sender.Repair.{Repairs}

abbrev pub rtcp_interval : ℕ
rtcp_interval = 500_000_000

abbrev pub receiver_silence_timeout : ℕ
receiver_silence_timeout = 8_000_000_000

abbrev pub max_encoded_frame_bytes : ℕ
max_encoded_frame_bytes = 4 * 1024 * 1024

pub record StreamSender : Type 0 where
  pub packetizer : Packetizer
  pub key : List ℕ
  pub iv_mask : List ℕ
  pub repairs : Repairs
  pub time_base : ℕ
  pub expected_frame_interval : ℕ
  pub frame_id : ℕ
  pub history : List HistoryEntry
  pub window : AckWindow
  pub gate : Gate
  pub stats : SenderStats
  pub flow : FlowWatch
  pub clock_origin : ℕ
  pub last_report : Option ℕ
  pub has_media : Bool
  pub rtcp_enabled : Bool
  pub last_probe : ℕ

-- Rounded up, and never by zero.
unfoldable pub video_frame_interval : ℕ → ℕ
video_frame_interval fps = (1_000_000_000 + max fps 1 - 1) / max fps 1

-- A stream as it was offered.
pub record Offer : Type 0 where
  pub ssrc : ℕ
  pub payload_type : ℕ
  pub key : List ℕ
  pub iv_mask : List ℕ
  pub is_video : Bool

-- The clock's origin and the other origins are set when the streaming begins.
unfoldable pub new : Offer → ℕ → Bool → ℕ → StreamSender
unfolding new_packetizer new_window new_gate video_frame_interval
new o fps rtcp_enabled now = record {
  packetizer = new_packetizer o.ssrc o.payload_type;
  key = o.key;
  iv_mask = o.iv_mask;
  repairs = record { repair_queue = []; queued_repairs = [] };
  time_base = if o.is_video then 90_000 else 48_000;
  expected_frame_interval = if o.is_video then video_frame_interval fps else 10_000_000;
  frame_id = 0;
  history = [];
  window = new_window now;
  gate = new_gate o.is_video;
  stats = record { packets = 0; octets = 0 };
  flow = record {
    last_pts_ns = none;
    last_send = none;
    frames = 0;
    pts_jumps = 0;
    worst_pts_jump_ms = 0;
    worst_send_gap_ms = 0;
  };
  clock_origin = 0;
  last_report = none;
  has_media = false;
  rtcp_enabled = rtcp_enabled;
  last_probe = now;
}

-- The clock, and the session time of the pipeline, if it has one.
pub record ReportReading : Type 0 where
  pub now : ℕ
  pub running : Option ℕ

abbrev pub is_recent : ℕ → Option ℕ → Bool
is_recent now none = false
is_recent now (some last) = ltb (now - last) rtcp_interval

abbrev pub since_epoch : ℕ → SinceEpoch
since_epoch t = record { secs = t / 1_000_000_000; nanos = t % 1_000_000_000 }

-- The report for a session time. A failure to send it changes nothing.
unfoldable pub report_at : ℕ → Option ℕ → StreamSender → Option (List ℕ) × StreamSender
unfolding ntp_timestamp rtp_ticks build_sender_report
report_at now none s = (none, s)
report_at now (some running) s = (
  some (
      build_sender_report s.packetizer.ssrc (ntp_timestamp (since_epoch (s.clock_origin + running)))
        (rtp_ticks running s.time_base) s.stats),
  record s { last_report = some now },
)

-- The report that leaves, if one is due.
unfoldable pub send_report_if_due : ReportReading → StreamSender → Option (List ℕ) × StreamSender
unfolding report_at
send_report_if_due r s =
    if not s.rtcp_enabled || (not s.has_media || is_recent r.now s.last_report)
    then (none, s)
    else report_at r.now r.running s

-- What becomes of a packet at the pacer.
pub data Delivery : Type 0 where
  delivered : Delivery
  interrupted : Delivery
  refused : Delivery

-- The loop over the packets of a frame ends with the first that is not delivered.
unfoldable pub send_packets :
    (ℕ → Delivery) → ℕ → List (List ℕ) → SenderStats → Delivery × SenderStats
unfolding record_packet
send_packets deliver k [] stats = (delivered, stats)
send_packets deliver k (p ∷ ps) stats =
    let rest = send_packets deliver (suc k) ps (record_packet (length p - 12) stats) in
    elim (deliver k) [
      | delivered ↦ rest
      | interrupted ↦ (interrupted, stats)
      | refused ↦ (refused, stats)
    ]

-- `Ok(true)`, `Ok(false)` and the errors; a slice out of range in the packetizer would be a panic.
pub data Pumped : Type 0 where
  goes_on : Pumped
  ended : Pumped
  failed : Pumped
  panicked : Pumped

pub record Readings : Type 0 where
  pub sent_now : ℕ
  pub kept_now : ℕ
  pub flow_now : ℕ
  pub deliver : ℕ → Delivery
  pub report_before : ReportReading
  pub report_after : ReportReading

-- The end of `send_frame`, when every packet has left.
unfoldable pub keep_frame : Readings → ℕ → List (List ℕ) → StreamSender → Pumped × StreamSender
unfolding send_report_if_due keep record_frame
keep_frame r pts packets s =
    let entry : HistoryEntry = record {
      frame_id = s.frame_id;
      sent = r.kept_now;
      packets = packets;
    } in
    let kept = record s {
      history = keep entry r.kept_now s.window.checkpoint s.history;
      flow = record_frame r.flow_now pts s.expected_frame_interval s.flow;
    } in
    let s' = (send_report_if_due r.report_after kept).1 in
    if ltb (s.frame_id + 1) (2 ^ 32)
    then (goes_on, record s' { frame_id = s.frame_id + 1 })
    else (failed, s')

-- What follows the packets of a frame: only when all have left is it kept.
unfoldable pub after_packets :
    Readings → ℕ → List (List ℕ) → Delivery → StreamSender → Pumped × StreamSender
unfolding keep_frame
after_packets r pts packets delivered s = keep_frame r pts packets s
after_packets r pts packets interrupted s = (ended, s)
after_packets r pts packets refused s = (failed, s)

-- `send_frame` from the entry in the window on.
unfoldable pub deliver_frame :
    Readings → ℕ → List (List ℕ) → Packetizer → StreamSender → Pumped × StreamSender
unfolding sent send_packets after_packets send_report_if_due
deliver_frame r pts packets packetizer s =
    let recorded = record s {
      packetizer = packetizer;
      window = sent r.sent_now s.frame_id s.window;
      has_media = true;
    } in
    let s' = (send_report_if_due r.report_before recorded).1 in
    let (end, stats) = send_packets r.deliver 0 packets s'.stats in
    after_packets r pts packets end (record s' { stats = stats })

unfoldable pub split_frame :
    Readings → ℕ → Option (List (List ℕ) × Packetizer) → StreamSender → Pumped × StreamSender
unfolding deliver_frame
split_frame r pts none s = (panicked, s)
split_frame r pts (some (packets, packetizer)) s = deliver_frame r pts packets packetizer s

abbrev pub last_packet : List (List ℕ) → Option (List ℕ)
last_packet [] = none
last_packet (p ∷ []) = some p
last_packet (p ∷ (q ∷ qs)) = last_packet (q ∷ qs)

-- The last packet of the newest frame.
abbrev pub newest : List HistoryEntry → Option (List ℕ)
newest [] = none
newest (e ∷ []) = last_packet e.packets
newest (e ∷ (f ∷ es)) = newest (f ∷ es)

unfoldable pub count_probe : Bool → Option (List ℕ) → StreamSender → StreamSender
unfolding record_packet
count_probe accepted none s = s
count_probe accepted (some packet) s =
    if accepted then record s { stats = record_packet (length packet - 12) s.stats } else s

-- `accepted` is what the pacer says of the packet, if it comes to that.
unfoldable pub probe_stalled_receiver : ℕ → Bool → StreamSender → StreamSender
unfolding pending count_probe
probe_stalled_receiver now accepted s =
    if ltb (now - s.last_probe) rtcp_interval
    then s
    else if not (pending s.window == 0) && leb rtcp_interval (now - s.window.last_progress)
    then count_probe accepted (newest s.history) (record s { last_probe = now })
    else s

-- What the appsink gives: nothing yet, the end, a sample that cannot be used, or a frame with its
-- session time. The bytes are there if the buffer can be mapped.
pub data Sample : Type 0 where
  not_ready : Sample
  end_of_stream : Sample
  unusable : Sample
  encoded : Option (List ℕ) → Bool → ℕ → Sample

module _ (keystream : List ℕ → List ℕ → ℕ → ℕ) where
  abbrev pub frame_of : List ℕ → Bool → ℕ → StreamSender → Frame
  frame_of bytes is_key pts s = record {
    frame_id = s.frame_id;
    reference_frame_id = if not is_key && ltb 0 s.frame_id then some (s.frame_id - 1) else none;
    rtp_timestamp = rtp_ticks pts s.time_base;
    payload = encrypt_frame keystream s.key s.iv_mask s.frame_id bytes;
  }

  unfoldable pub send_frame : Readings → List ℕ → Bool → ℕ → StreamSender → Pumped × StreamSender
  unfolding packetize split_frame
  send_frame r bytes is_key pts s =
      split_frame r pts (packetize s.packetizer (frame_of bytes is_key pts s)) s

  unfoldable pub send_mapped :
      Readings → Option (List ℕ) → Bool → ℕ → StreamSender → Pumped × StreamSender
  unfolding send_frame
  send_mapped r none is_key pts s = (failed, s)
  send_mapped r (some bytes) is_key pts s =
      if ltb max_encoded_frame_bytes (length bytes)
      then (failed, s)
      else send_frame r bytes is_key pts s

  unfoldable pub pump : ℕ → Readings → Sample → StreamSender → Pumped × StreamSender
  unfolding pending can_send skip_while_receiver_catches_up send_mapped
  pump now r not_ready s = (goes_on, s)
  pump now r end_of_stream s = (ended, s)
  pump now r unusable s = (failed, s)
  pump now r (encoded bytes is_key pts) s =
      let (skipped, gate) = skip_while_receiver_catches_up is_key (can_send s.window) s.gate in
      let s' = record s { gate = gate } in
      if not (pending s.window == 0) && ltb receiver_silence_timeout (now - s.window.last_progress)
      then (failed, s)
      else if skipped
      then (goes_on, s')
      else send_mapped r bytes is_key pts s'
