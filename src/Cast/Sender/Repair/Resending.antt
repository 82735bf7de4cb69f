-- ===== src/Cast/Sender/Repair/Resending.antt =====
-- One burst of repairs of sender.rs.
use big_net_screen.Base.{
  ℕ, zero, suc, ◌+◌, ◌≤◌, ◌≡◌, refl, ap, Bool, true, false, not, ◌&&◌, Option, none, some, List, [],
  ◌∷◌, length, take, get_elem?, All, leb, ◌==◌, arith, if-holds,
}
use big_net_screen.Base.Int.{ℤ, pos, ltb_ℤ}
use big_net_screen.Cast.Rtp.{max_packet_size}
use big_net_screen.Cast.Pacing.{burst_budget_bytes}
use big_net_screen.Cast.Rtcp.Report.{SenderStats}
use big_net_screen.Cast.Rtcp.Feedback.{Nack}
use big_net_screen.Cast.Sender.History.{HistoryEntry, find_frame}
use big_net_screen.Cast.Sender.Repair.{
  Key, Repairs, Turn, Burst, remove, lookup, resend, pop, burst, serve_all, retransmit,
}
use big_net_screen.Cast.Sender.Repair.Queue.{IsValid, pop-IsValid, serve_all-IsValid}

-- Every packet that the history keeps is one that the packetizer can make.
abbrev pub Fits : List HistoryEntry → Type 0
Fits = All (λ (e : HistoryEntry). All (λ (p : List ℕ). length p ≤ max_packet_size) e.packets)

-- The packet is in the history, and its frame is not acknowledged.
abbrev pub IsOwed : List HistoryEntry → ℤ → Key → Type 0
IsOwed history acknowledged key =
    (ltb_ℤ acknowledged (pos key.frame_id) ≡ true)
    × ((packet : List ℕ) × (lookup history key ≡ some packet))

abbrev pub size : Option (List ℕ) → ℕ
size none = 0
size (some p) = length p

abbrev pub sizes : List HistoryEntry → List Key → ℕ
sizes history [] = 0
sizes history (k ∷ ks) = size (lookup history k) + sizes history ks

element_size :
    (packets : List (List ℕ)) (i : ℕ)
    → All (λ (p : List ℕ). length p ≤ max_packet_size) packets
    → size (get_elem? packets i) ≤ max_packet_size
element_size [] i h = omega arith
element_size (p ∷ ps) zero h = h.0
element_size (p ∷ ps) (suc i) h = element_size ps i h.1

lookup_size :
    (history : List HistoryEntry) (key : Key)
    → Fits history
    → size (lookup history key) ≤ max_packet_size
unfolding lookup
lookup_size [] key h = omega arith
lookup_size (e ∷ es) key h =
    if-holds
      (λ (o : Option HistoryEntry).
        size (elim o [ none ↦ none | some e ↦ get_elem? e.packets key.packet ]) ≤ max_packet_size)
      (e.frame_id == key.frame_id) (some e) (find_frame key.frame_id es)
      (λ _. element_size e.packets key.packet h.0) (λ _. lookup_size es key h.1)

-- What holds before each round, with the queue that is left.
record IsSound (history : List HistoryEntry) (acknowledged : ℤ) (queue : List Key) (b : Burst)
    : Type 0 where
  valid : IsValid (record { repair_queue = queue; queued_repairs = b.queued_repairs })
  owed : All (IsOwed history acknowledged) b.sent
  counted : b.bytes ≡ sizes history b.sent
  paced : b.bytes ≤ burst_budget_bytes

resend-IsSound :
    (history : List HistoryEntry) (acknowledged : ℤ) (accepted : Bool) (key : Key)
    (queue : List Key) (o : Option (List ℕ)) (b : Burst)
    → ltb_ℤ acknowledged (pos key.frame_id) ≡ true
    → lookup history key ≡ o
    → b.bytes + size o ≤ burst_budget_bytes
    → IsSound history acknowledged queue b
    → IsSound history acknowledged queue (resend accepted key o b)
unfolding resend
resend-IsSound history acknowledged accepted key queue none b open_ e room s = record {
  valid = s.valid;
  owed = s.owed;
  counted = s.counted;
  paced = s.paced;
}
resend-IsSound history acknowledged false key queue (some packet) b open_ e room s = s
resend-IsSound history acknowledged true key queue (some packet) b open_ e room s = record {
  valid = s.valid;
  owed = ((open_, (packet, e)), s.owed);
  counted = omega (arith, s.counted, ap size e);
  paced = room;
}

turn_open :
    (n : ℕ) (running : Bool)
    → (leb (n + max_packet_size) burst_budget_bytes && running) ≡ true
    → n + max_packet_size ≤ burst_budget_bytes
turn_open n running h = ground arith

pop-IsSound :
    (history : List HistoryEntry) (acknowledged : ℤ) (accepted : Bool) (key : Key)
    (queue : List Key) (b : Burst)
    → Fits history
    → b.bytes + max_packet_size ≤ burst_budget_bytes
    → IsSound history acknowledged (key ∷ queue) b
    → IsSound history acknowledged queue (pop history acknowledged accepted key b)
unfolding pop
pop-IsSound history acknowledged accepted key queue b fits room s =
    let b' : Burst = record b { queued_repairs = remove key b.queued_repairs } in
    let popped : IsSound history acknowledged queue b' = record {
      valid = pop-IsValid key queue b.queued_repairs s.valid;
      owed = s.owed;
      counted = s.counted;
      paced = s.paced;
    } in
    if-holds (IsSound history acknowledged queue) (not (ltb_ℤ acknowledged (pos key.frame_id))) b' _
      (λ _. popped)
      (λ unacked.
        resend-IsSound history acknowledged accepted key queue (lookup history key) b'
          (not_false _ unacked) refl (omega (arith, lookup_size history key fits)) popped)
  where
    not_false : (b : Bool) → not b ≡ false → b ≡ true
    not_false b h = ground arith

burst-IsSound :
    (history : List HistoryEntry) (acknowledged : ℤ) (turns : ℕ → Turn) (k : ℕ) (queue : List Key)
    (b : Burst)
    → Fits history
    → IsSound history acknowledged queue b
    → let (queue', b') = burst history acknowledged turns k queue b in
      IsSound history acknowledged queue' b'
unfolding burst
burst-IsSound history acknowledged turns k [] b fits s = s
burst-IsSound history acknowledged turns k (key ∷ queue) b fits s =
    if-holds (λ (r : List Key × Burst). IsSound history acknowledged r.0 r.1)
      (leb (b.bytes + max_packet_size) burst_budget_bytes && (turns k).running) _ (key ∷ queue, b)
      (λ room. burst-IsSound history acknowledged turns (suc k) queue _ fits (
        pop-IsSound history acknowledged (turns k).accepted key queue b fits
          (turn_open b.bytes (turns k).running room) s))
      (λ _. s)

-- Whatever is asked for and however the burst ends: a packet waits at most once in a queue of at
-- most 4096, the set beside it holds just what waits, every packet that is resent is in the
-- history and of a frame that is not acknowledged, and together they fit the burst budget.
pub retransmit_sound :
    (history : List HistoryEntry) (acknowledged : ℤ) (turns : ℕ → Turn) (nacks : List Nack)
    (stats : SenderStats) (r : Repairs)
    → Fits history
    → IsValid r
    → let (result, _, r') = retransmit history acknowledged turns nacks (stats, r) in
      IsValid r'
      × All (IsOwed history acknowledged) result.sent
      × (sizes history result.sent ≤ burst_budget_bytes)
unfolding retransmit
retransmit_sound history acknowledged turns nacks stats r fits v =
    let (expired, r') = serve_all history acknowledged (take 256 nacks) (0, r) in
    let s =
      burst-IsSound history acknowledged turns 0 r'.repair_queue
        (record {
          sent = [];
          expired = expired;
          bytes = 0;
          queued_repairs = r'.queued_repairs;
          stats = stats;
        })
        fits
        (record {
          valid = serve_all-IsValid history acknowledged (take 256 nacks) 0 r v;
          owed = tt;
          counted = refl;
          paced = omega arith;
        }) in
    (s.valid, s.owed, omega (arith, s.counted, s.paced))
