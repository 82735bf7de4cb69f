-- ===== src/Cast/Sender/Repair.antt =====
-- The queue of packets that sender.rs resends.
pub mod Queue
pub mod Resending
pub mod Covering
mod Tests
use big_net_screen.Base.{
  ℕ, zero, suc, ◌+◌, ◌-◌, ◌*◌, ◌%◌, ◌^◌, Bool, true, false, not, ◌&&◌, ◌||◌, Option, none, some,
  List, [], ◌∷◌, ◌++◌, length, take, get_elem?, ltb, leb, ◌==◌, if◌then◌else◌,
}
use big_net_screen.Base.Int.{ℤ, pos, ltb_ℤ}
use big_net_screen.Cast.Rtp.{max_packet_size}
use big_net_screen.Cast.Pacing.{burst_budget_bytes}
use big_net_screen.Cast.Rtcp.Report.{SenderStats, record_packet}
use big_net_screen.Cast.Rtcp.Feedback.{Nack, packet_ids}
use big_net_screen.Cast.Sender.History.{HistoryEntry, find_wire, find_frame}

abbrev pub max_repair_queue : ℕ
max_repair_queue = 4096

-- A packet to resend: the full id of its frame, and its place in it.
pub record Key : Type 0 where
  pub frame_id : ℕ
  pub packet : ℕ

abbrev pub same_key : Key → Key → Bool
same_key a b = (a.frame_id == b.frame_id) && (a.packet == b.packet)

-- The set `queued_repairs` is the list of its elements.
unfoldable pub contains : Key → List Key → Bool
contains k [] = false
contains k (x ∷ xs) = same_key k x || contains k xs

unfoldable pub remove : Key → List Key → List Key
remove k [] = []
remove k (x ∷ xs) = if same_key k x then remove k xs else x ∷ remove k xs

pub record Repairs : Type 0 where
  pub repair_queue : List Key
  pub queued_repairs : List Key

unfoldable pub push : Key → Repairs → Repairs
push key r = record {
  repair_queue = r.repair_queue ++ (key ∷ []);
  queued_repairs = key ∷ r.queued_repairs;
}

-- The loop over the packet ids of one request; `count` is the number of packets of the frame.
unfoldable pub enqueue : ℕ → ℕ → List ℕ → Repairs → Repairs
unfolding contains push
enqueue frame_id count [] r = r
enqueue frame_id count (id ∷ ids) r =
    let key : Key = record { frame_id = frame_id; packet = id } in
    let r' = (if ltb id count && not (contains key r.queued_repairs) then push key r else r) in
    let rest = enqueue frame_id count ids r' in
    if leb max_repair_queue (length r.repair_queue) then r else rest

abbrev pub indices : ℕ → ℕ → List ℕ
indices from zero = []
indices from (suc n) = from ∷ indices (suc from) n

unfoldable pub wanted_ids : Nack → ℕ → List ℕ
unfolding packet_ids
wanted_ids nack count = elim (packet_ids nack) [ none ↦ indices 0 count | some ids ↦ ids ]

-- One request, with the frame that its low byte names: how many have expired, and the queue.
unfoldable pub serve_found : ℤ → Nack → Option HistoryEntry → ℕ × Repairs → ℕ × Repairs
unfolding enqueue wanted_ids
serve_found acknowledged nack none (expired, r) = (expired + 1, r)
serve_found acknowledged nack (some e) (expired, r) =
    if not (ltb_ℤ acknowledged (pos e.frame_id))
    then (expired, r)
    else (expired, enqueue e.frame_id (length e.packets) (wanted_ids nack (length e.packets)) r)

unfoldable pub serve : List HistoryEntry → ℤ → Nack → ℕ × Repairs → ℕ × Repairs
unfolding find_wire serve_found
serve history acknowledged nack s =
    serve_found acknowledged nack (find_wire nack.frame_id history) s

unfoldable pub serve_all : List HistoryEntry → ℤ → List Nack → ℕ × Repairs → ℕ × Repairs
unfolding serve
serve_all history acknowledged [] s = s
serve_all history acknowledged (nack ∷ nacks) s =
    serve_all history acknowledged nacks (serve history acknowledged nack s)

-- What a round of the burst reads: whether it is still in the interval with the session running,
-- and whether the socket takes the packet.
pub record Turn : Type 0 where
  pub running : Bool
  pub accepted : Bool

pub record Burst : Type 0 where
  pub sent : List Key
  pub expired : ℕ
  pub bytes : ℕ
  pub queued_repairs : List Key
  pub stats : SenderStats

unfoldable pub lookup : List HistoryEntry → Key → Option (List ℕ)
unfolding find_frame
lookup history key = elim (find_frame key.frame_id history) [
  | none ↦ none
  | some e ↦ get_elem? e.packets key.packet
]

-- A key that was popped: its packet is sent, or it counts as expired.
unfoldable pub resend : Bool → Key → Option (List ℕ) → Burst → Burst
unfolding record_packet
resend accepted key none b = record b { expired = b.expired + 1 }
resend accepted key (some packet) b =
    if accepted
    then record b {
      sent = key ∷ b.sent;
      bytes = b.bytes + length packet;
      stats = record_packet (length packet - 12) b.stats;
    }
    else b

unfoldable pub pop : List HistoryEntry → ℤ → Bool → Key → Burst → Burst
unfolding remove lookup resend
pop history acknowledged accepted key b =
    let b' : Burst = record b { queued_repairs = remove key b.queued_repairs } in
    if not (ltb_ℤ acknowledged (pos key.frame_id))
    then b'
    else resend accepted key (lookup history key) b'

-- The burst, with what is left of the queue. `turns` gives the readings of each round.
unfoldable pub burst : List HistoryEntry → ℤ → (ℕ → Turn) → ℕ → List Key → Burst → List Key × Burst
unfolding pop
burst history acknowledged turns k [] b = ([], b)
burst history acknowledged turns k (key ∷ queue) b =
    let rest =
      burst history acknowledged turns (suc k) queue
        (pop history acknowledged (turns k).accepted key b) in
    if leb (b.bytes + max_packet_size) burst_budget_bytes && (turns k).running
    then rest
    else (key ∷ queue, b)

pub record Retransmission : Type 0 where
  pub sent : List Key
  pub expired : ℕ

-- The whole call. The packets sent stand in `sent`, whose number is what the code returns.
unfoldable pub retransmit :
    List HistoryEntry
    → ℤ
    → (ℕ → Turn)
    → List Nack
    → SenderStats × Repairs
    → Retransmission × SenderStats × Repairs
unfolding serve_all burst
retransmit history acknowledged turns nacks (stats, r) =
    let (expired, r') = serve_all history acknowledged (take 256 nacks) (0, r) in
    let (queue, b) = burst history acknowledged turns 0 r'.repair_queue (record {
      sent = [];
      expired = expired;
      bytes = 0;
      queued_repairs = r'.queued_repairs;
      stats = stats;
    }) in
    (
      record { sent = b.sent; expired = b.expired },
      b.stats,
      record { repair_queue = queue; queued_repairs = b.queued_repairs },
    )
