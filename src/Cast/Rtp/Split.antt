-- ===== src/Cast/Rtp/Split.antt =====
-- How rtp.rs splits a frame: in order, without loss, and inside the packet size.
use mathlib.Core.Path.{subst}
use big_net_screen.Base.{
  ◌⊎◌, ℕ, zero, suc, ◌+◌, ◌-◌, ◌*◌, ◌/◌, ◌%◌, ◌^◌, ◌≤◌, ◌<◌, max, min, ◌≡◌, refl, ap, sym, ◌∙◌,
  Option, none, some, List, [], ◌∷◌, ◌++◌, Bool, append-nil, append_assoc, length, length-take,
  length-drop, take, drop, drop-drop, drop_all, take-append-drop, take-min, slice, slice_in_range,
  All, ◌==◌, arith,
}
use big_net_screen.Cast.Rtp.{
  Frame, Packetizer, max_packet_size, max_payload_size, build_packet, packets_from, packet_count,
  packetize,
}

-- Every packetizer that `new` makes, and none changes it.
abbrev pub IsValid : Packetizer → Type 0
IsValid p = p.packet_limit ≡ max_packet_size

abbrev pub header_size : Option ℕ → ℕ
header_size none = 18
header_size (some reference) = 19

abbrev pub payload_of : Frame → List ℕ → List ℕ
payload_of frame packet = drop (header_size frame.reference_frame_id) packet

abbrev pub joined : Frame → List (List ℕ) → List ℕ
joined frame [] = []
joined frame (packet ∷ packets) = payload_of frame packet ++ joined frame packets

abbrev pub chunk_at : Frame → ℕ → List ℕ
chunk_at frame index = take 1181 (drop (index * 1181) frame.payload)

abbrev pub at : Packetizer → ℕ → Packetizer
at p index = record p { sequence = (p.sequence + index) % 2 ^ 16 }

-- The packet of one index, described on its own.
abbrev pub packet_at : Packetizer → Frame → ℕ → ℕ → List ℕ
packet_at p frame total index =
    (build_packet (at p index) frame (index % 2 ^ 16) ((total - 1) % 2 ^ 16) (chunk_at frame index)
      (index == (total - 1))).0

abbrev pub packets_at : Packetizer → Frame → ℕ → ℕ → ℕ → List (List ℕ)
packets_at p frame total zero index = []
packets_at p frame total (suc rounds) index =
    packet_at p frame total index ∷ packets_at p frame total rounds (index + 1)

payload-build_packet :
    (p : Packetizer) (frame : Frame) (a b : ℕ) (chunk : List ℕ) (last : Bool)
    → payload_of frame (build_packet p frame a b chunk last).0 ≡ chunk
unfolding build_packet
payload-build_packet p frame a b chunk last = cases frame.reference_frame_id refl
  where
    cases :
        (o : Option ℕ)
        → frame.reference_frame_id ≡ o
        → payload_of frame (build_packet p frame a b chunk last).0 ≡ chunk
    cases none e = rw e
    cases (some r) e = rw e

length-build_packet :
    (p : Packetizer) (frame : Frame) (a b : ℕ) (chunk : List ℕ) (last : Bool)
    → length (build_packet p frame a b chunk last).0
      ≡ header_size frame.reference_frame_id + length chunk
unfolding build_packet
length-build_packet p frame a b chunk last = cases frame.reference_frame_id refl
  where
    cases :
        (o : Option ℕ)
        → frame.reference_frame_id ≡ o
        → length (build_packet p frame a b chunk last).0
          ≡ header_size frame.reference_frame_id + length chunk
    cases none e = rw e (omega arith)
    cases (some r) e = rw e (omega arith)

-- What `div_ceil` and `max` come to for the payload limit of 1181 bytes.
count_bounds :
    (p : Packetizer) (frame : Frame)
    → IsValid p
    → (0 < packet_count p frame)
      × (length frame.payload ≤ packet_count p frame * 1181)
      × ((packet_count p frame ≡ 1) ⊎ ((packet_count p frame - 1) * 1181 < length frame.payload))
unfolding packet_count
count_bounds p frame v = rw v (omega arith, omega arith, fewest (length frame.payload))
  where
    fewest :
        (n : ℕ)
        → (max ((n + 1181 - 1) / 1181) 1 ≡ 1) ⊎ ((max ((n + 1181 - 1) / 1181) 1 - 1) * 1181 < n)
    fewest n = ground arith

chunk_in_range :
    (p : Packetizer) (frame : Frame) (index : ℕ)
    → IsValid p
    → index < packet_count p frame
    → slice frame.payload (index * 1181) (min ((index + 1) * 1181) (length frame.payload))
      ≡ some (chunk_at frame index)
chunk_in_range p frame index v h =
    slice_in_range frame.payload (index * 1181) _ (omega (arith, count_bounds p frame v))
      (omega arith)
    ∙ ap some
        (narrow (drop (index * 1181) frame.payload) (length-drop (index * 1181) frame.payload))
  where
    narrow :
        (rest : List ℕ)
        → length rest ≡ length frame.payload - index * 1181
        → take (min ((index + 1) * 1181) (length frame.payload) - index * 1181) rest
          ≡ take 1181 rest
    narrow rest e = ap (λ (k : ℕ). take k rest) (omega arith) ∙ take-min 1181 rest

at_next : (p : Packetizer) (index : ℕ) → at (at p index) 1 ≡ at p (index + 1)
at_next p index = ap (λ (s : ℕ). record p { sequence = s }) (omega arith)

limit_eq : (p : Packetizer) (index : ℕ) → IsValid p → max_payload_size (at p index) ≡ 1181
unfolding max_payload_size
limit_eq p index v = rw v

build_packet-at :
    (p : Packetizer) (frame : Frame) (index a b : ℕ) (chunk : List ℕ) (last : Bool)
    → (build_packet (at p index) frame a b chunk last).1 ≡ at p (index + 1)
unfolding build_packet
build_packet-at p frame index a b chunk last = at_next p index

packets_from-eq :
    (rounds index : ℕ) (p : Packetizer) (frame : Frame)
    → IsValid p
    → index + rounds ≡ packet_count p frame
    → packets_from rounds index (packet_count p frame) (at p index) frame
      ≡ some (packets_at p frame (packet_count p frame) rounds index, at p (index + rounds))
unfolding packets_from
packets_from-eq zero index p frame v h = ap (λ (i : ℕ). some ([], at p i)) (omega arith)
packets_from-eq (suc rounds) index p frame v h =
    rw
      (
        limit_eq p index v,
        chunk_in_range p frame index v (omega arith),
        build_packet-at,
        packets_from,
        packets_from-eq rounds (index + 1) p frame v (omega arith),
      )
      (ap (λ (i : ℕ). some (packets_at p frame (packet_count p frame) (suc rounds) index, at p i))
        (omega arith))

joined-packets_at :
    (p : Packetizer) (frame : Frame) (total rounds index : ℕ)
    → joined frame (packets_at p frame total rounds index)
        ++ drop ((index + rounds) * 1181) frame.payload
      ≡ drop (index * 1181) frame.payload
joined-packets_at p frame total zero index = ap (λ (i : ℕ). drop i frame.payload) (omega arith)
joined-packets_at p frame total (suc rounds) index =
    rw
      (
        payload-build_packet,
        append_assoc,
        ap (λ (i : ℕ). drop (i * 1181) frame.payload) (shift index rounds),
        joined-packets_at p frame total rounds (index + 1),
        ap (λ (i : ℕ). drop i frame.payload) (next index),
        ← drop-drop 1181 (index * 1181) frame.payload,
      )
      (take-append-drop 1181 (drop (index * 1181) frame.payload))
  where
    shift : (index rounds : ℕ) → index + suc rounds ≡ index + 1 + rounds
    shift index rounds = omega arith

    next : (index : ℕ) → (index + 1) * 1181 ≡ index * 1181 + 1181
    next index = omega arith

length-packet_at :
    (p : Packetizer) (frame : Frame) (total index : ℕ)
    → length (packet_at p frame total index) ≤ 1200
length-packet_at p frame total index = omega (
  arith,
  length-build_packet (at p index) frame (index % 2 ^ 16) ((total - 1) % 2 ^ 16)
      (chunk_at frame index) (index == (total - 1)),
  length-take 1181 (drop (index * 1181) frame.payload),
  small frame.reference_frame_id,
)
  where
    small : (o : Option ℕ) → header_size o ≤ 19
    small none = omega arith
    small (some r) = omega arith

packets_at-All :
    (p : Packetizer) (frame : Frame) (total rounds index : ℕ)
    → All (λ packet. length packet ≤ max_packet_size) (packets_at p frame total rounds index)
packets_at-All p frame total zero index = tt
packets_at-All p frame total (suc rounds) index =
    (length-packet_at p frame total index, packets_at-All p frame total rounds (index + 1))

pub length-packets_at :
    (p : Packetizer) (frame : Frame) (total rounds index : ℕ)
    → length (packets_at p frame total rounds index) ≡ rounds
length-packets_at p frame total zero index = refl
length-packets_at p frame total (suc rounds) index =
    ap suc (length-packets_at p frame total rounds (index + 1))

-- `packetize` is the list of the packets described one by one.
pub packetize-eq :
    (p : Packetizer) (frame : Frame)
    → IsValid p
    → p.sequence < 2 ^ 16
    → packetize p frame
      ≡ some (
        packets_at p frame (packet_count p frame) (packet_count p frame) 0,
        at p (packet_count p frame),
      )
unfolding packetize
packetize-eq p frame v h =
    ap (λ (q : Packetizer). packets_from (packet_count p frame) 0 (packet_count p frame) q frame)
      start
    ∙ packets_from-eq (packet_count p frame) 0 p frame v (omega arith)
    ∙ ap
        (λ (i : ℕ).
          some (packets_at p frame (packet_count p frame) (packet_count p frame) 0, at p i))
        (omega arith)
  where
    start : p ≡ at p 0
    start = ap (λ (s : ℕ). record p { sequence = s }) (omega arith)

-- Splitting a frame never slices out of range. The packets' payloads, joined in order, are the
-- frame's payload: no byte is lost, repeated or moved. There is one packet at least, also for an
-- empty frame, and otherwise as few as the payload needs; none is longer than 1200 bytes; and the
-- sequence number moves on by their number, wrapping at 2 ^ 16.
pub packetize-joined :
    (p : Packetizer) (frame : Frame)
    → IsValid p
    → p.sequence < 2 ^ 16
    → (packets : List (List ℕ)) × (p' : Packetizer) × (packetize p frame ≡ some (packets, p'))
      × (joined frame packets ≡ frame.payload)
      × (0 < length packets)
      × ((length packets ≡ 1) ⊎ ((length packets - 1) * 1181 < length frame.payload))
      × All (λ packet. length packet ≤ max_packet_size) packets
      × (p' ≡ record p { sequence = (p.sequence + length packets) % 2 ^ 16 })
packetize-joined p frame v h =
    let total = packet_count p frame in
    let packets = packets_at p frame total total 0 in
    let count : length packets ≡ total = length-packets_at p frame total total 0 in
    (
      packets,
      at p total,
      packetize-eq p frame v h,
      joined_all,
      omega (arith, count, (count_bounds p frame v).0),
      subst (λ (n : ℕ). (n ≡ 1) ⊎ ((n - 1) * 1181 < length frame.payload)) (sym count)
          (count_bounds p frame v).2,
      packets_at-All p frame total total 0,
      ap (at p) (sym count),
    )
  where
    joined_all :
        joined frame (packets_at p frame (packet_count p frame) (packet_count p frame) 0)
        ≡ frame.payload
    joined_all =
        sym (append-nil _)
        ∙ ap
            (λ (t : List ℕ).
              joined frame (packets_at p frame (packet_count p frame) (packet_count p frame) 0)
              ++ t)
            (sym (
              drop_all ((0 + packet_count p frame) * 1181) frame.payload
                (omega (arith, count_bounds p frame v))))
        ∙ joined-packets_at p frame (packet_count p frame) (packet_count p frame) 0
