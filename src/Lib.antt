-- ===== src/Lib.antt =====
-- BigNetScreen sends a screen to a television: over Google Cast mirroring, Wi-Fi Display, DLNA, NDI
-- and a web page. This library models the core of its Cast mirroring sender and the frames of its
-- control channel, in crates/nd-chromecast/src; the modes and the messages of Wi-Fi Display, in
-- crates/nd-wfd; and, of crates/nd-core, the status of a session, the rewriting of the parameters
-- of a video stream, the admission of web clients, and the places where they can start. It proves
-- that these keep their promises.
--
-- A mirroring session has a video and an audio track. The encoder hands frames to the sender of a
-- track, which drops those that the receiver has no room for, encrypts and splits the others,
-- paces the packets, and keeps them for repairs. The receiver answers with RTCP on the same socket;
-- each datagram is validated whole, and moves the window of its track, asks for repairs, or asks
-- for a key frame. The bitrate follows what each window of sending shows of the link.
--
-- - Base: the shared names; lists and their slices over the native numbers, signed integers, bytes
--   and their bit operations, and `Outcome`, what a parser over a byte slice does: return, refuse,
--   or panic at an index out of range. A loop that runs out of fuel counts as a panic, so the
--   theorems that no parser panics show that the fuel is enough as well. A string is the list of its
--   codes; Base.Text has the methods of `str` that the code calls, over such lists.
-- - Cast.Flow is flow.rs: `AckWindow` and its `pending`, `can_send`, `sent` and `acknowledge`. The
--   i64 ids are integers, the wire ids numbers below 256, and the clock is an argument. Flow.Window
--   has the steps of the two threads that share a window, Flow.Expand the reading of a wire id.
-- - Cast.Rtp is rtp.rs: `Packetizer` and its `packetize` and `build_packet`, and `encrypt_frame`
--   with its nonce. The AES keystream is a parameter: a byte for each key, nonce and position.
-- - Cast.Rtcp is rtcp.rs: Report has the sender reports, Blocks the validation of a compound
--   datagram and the picture-loss requests, Feedback the Cast feedback and `Nack`. The loops over
--   the blocks and over the reports of an XR block run on the datagram's length as fuel; every round
--   takes four bytes at least.
-- - Cast.Rate is rate.rs: `Window`, `Baseline` and `RateControl`. The test on the loss is written
--   over numbers in place of f64.
-- - Cast.Pacing is mirror_session/pacing.rs: `BurstBudget::reserve` and the loop of
--   `BurstPacer::send`, over a list of the rounds' readings of the stop flag and the clock.
-- - Cast.Sender is mirror_session/sender.rs: Gate has `skip_while_receiver_catches_up` and the
--   key-frame requests, Clock `rtp_ticks` and `FlowWatch`, History the frames that are kept and
--   `prune_history`, Repair `retransmit` with its queue. Gate, History and Repair each have the
--   fields of `StreamSender` that they read or write, and Track puts them together: `pump` with
--   `send_frame`, the reports and the probes. Track.Session has the steps of a whole session.
-- - Cast.Routes is mirror_session/feedback.rs: `FeedbackRoutes::new`, `add_track` and `route`, with
--   the windows and inboxes of the tracks, and the signals of the session, as the state.
-- - Cast.Worker is mirror_session/worker.rs: `SessionSignals` with the outcome that the threads of
--   the tracks report, and `VideoControl::request_key_frame`; Worker.Upkeep has the emptying of the
--   inbox of repairs, `receiver_went_quiet` and `adapt_bitrate`. The loop of `Worker::run` is not.
-- - Cast.Control is cast/wire.rs and cast/writer.rs: Wire has `CastMessage` with its frame of a
--   big-endian length and a protobuf body, and its reading back; Writer has `ControlWriter`, with
--   the calls of all tasks in the order in which they take its lock, and a course for each write.
--   The protobuf codec and the JSON parser are parameters.
-- - Wfd.Tables, Wfd.Choice and Wfd.Formats are nd-wfd/src/rtsp/capabilities.rs: the resolution
--   tables with the bits and the native byte that name a mode, the modes that `SinkCaps` prefers,
--   and the text of M3 and M4, which is taken to be ASCII. Products of sizes do not overflow for
--   screens below 2 ^ 20 pixels a side, and are plain ones.
-- - Wfd.Message is nd-wfd/src/rtsp/message.rs: the reading of RTSP messages from a list of what each
--   fill of the buffer brings. The room for headers counts down from 64, so the loop needs no fuel.
-- - Core.Status is `SinkStatus` of nd-core/src/sink.rs, with the calls of all threads in the order in
--   which they take its lock.
-- - Core.Sps is nd-core/src/pipeline/decode_buffer.rs, which rewrites an H.264 sequence parameter set
--   so that a receiver need not buffer frames: Reader and Writer are the bit streams, Scan the
--   reading of an SPS up to the restriction, Escape the emulation prevention, Declared what is
--   written, Units the start codes of an access unit and the rewriting of its SPS. The
--   search for start codes runs on one more round than there are bytes, the zeros of an Exp-Golomb
--   number on the 32 that the code reads at most, the alignment on 7.
-- - Core.Secret is nd-core/src/secret.rs: the comparison of secrets.
-- - Core.Http is nd-core/src/stream_server/http.rs: the reading of a request from a list of what
--   arrives, `request_line` over its lines, and `triage` by path, address and method. The UTF-8 test
--   is a parameter.
-- - Core.Join is `Tables` of nd-core/src/stream_server.rs with the probe around it: the tables of a
--   transport stream that are kept, and the buffers at which a reader can start.
--
-- Instants and durations are numbers of nanoseconds. Counters wrap where the code's would. Sockets,
-- threads, GStreamer, TLS and the other crates are not modelled: what the code reads of them is an
-- argument. The other protocols, the sessions above the control channel, the service and the
-- interface are outside of the model.
pub mod Base
pub mod Cast
pub mod Wfd
pub mod Core
