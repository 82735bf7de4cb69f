-- ===== src/Cast/Rtp/Header.antt =====
-- What a receiver reads from the packets of rtp.rs.
use Prim.Native.Nat.{bit_and, bit_or}
use big_net_screen.Base.{
  ℕ, zero, suc, ◌+◌, ◌-◌, ◌/◌, ◌%◌, ◌^◌, ◌<◌, ◌≡◌, refl, ap, ◌∙◌, Option, none, some, List, [], ◌∷◌,
  Bool, true, false, length, get_or, ◌==◌, leb, arith, if◌then◌else◌,
}
use big_net_screen.Base.Bits.{bit_and_0x7f, bit_and_0xff, bit_or_0x80, bit_or_zero}
use big_net_screen.Base.Bytes.{IsByte, of_be16, of_be32}
use big_net_screen.Cast.Rtp.{
  Frame, Packetizer, build_packet, packet_count, packetize, reference_bytes,
}
use big_net_screen.Cast.Rtp.Split.{
  IsValid, chunk_at, at, packet_at, packets_at, length-packets_at, packetize-eq,
}

pub record Header : Type 0 where
  pub version : ℕ
  pub marker : Bool
  pub payload_type : ℕ
  pub sequence : ℕ
  pub rtp_timestamp : ℕ
  pub ssrc : ℕ
  pub is_key : Bool
  pub frame_id : ℕ
  pub packet_id : ℕ
  pub max_packet_id : ℕ
  pub reference : Option ℕ

-- The layout at the head of rtp.rs, read by offsets.
pub read_header : List ℕ → Header
read_header bytes =
    let b = λ (i : ℕ). get_or bytes i 0 in
    record {
      version = b 0 / 64;
      marker = leb 128 (b 1);
      payload_type = b 1 % 128;
      sequence = of_be16 (b 2) (b 3);
      rtp_timestamp = of_be32 (b 4) (b 5) (b 6) (b 7);
      ssrc = of_be32 (b 8) (b 9) (b 10) (b 11);
      is_key = leb 128 (b 12);
      frame_id = b 13;
      packet_id = of_be16 (b 14) (b 15);
      max_packet_id = of_be16 (b 16) (b 17);
      reference = if b 12 / 64 % 2 == 1 then some (b 18) else none;
    }

abbrev is_none : Option ℕ → Bool
is_none none = true
is_none (some r) = false

abbrev low : Option ℕ → Option ℕ
low none = none
low (some r) = some (r % 256)

abbrev tail_bytes : Option ℕ → List ℕ
tail_bytes none = []
tail_bytes (some r) = r ∷ []

-- The header that packet `i` of `total` is to carry.
abbrev pub expected : Packetizer → Frame → ℕ → ℕ → Header
expected p frame total i = record {
  version = 2;
  marker = i == (total - 1);
  payload_type = p.payload_type % 128;
  sequence = (p.sequence + i) % 2 ^ 16;
  rtp_timestamp = frame.rtp_timestamp;
  ssrc = p.ssrc;
  is_key = is_none frame.reference_frame_id;
  frame_id = frame.frame_id % 256;
  packet_id = i % 2 ^ 16;
  max_packet_id = (total - 1) % 2 ^ 16;
  reference = low frame.reference_frame_id;
}

second_byte :
    (last : Bool) (t : ℕ)
    → t < 256
    → bit_or (if last then 128 else 0) (bit_and t 0x7f) ≡ (if last then 128 else 0) + t % 128
second_byte true t h = rw (bit_and_0x7f t h) (bit_or_0x80 (t % 128) (omega arith))
second_byte false t h = rw (bit_and_0x7f t h) (omega (arith, bit_or_zero (t % 128) (omega arith)))

read_header-build_packet :
    (p : Packetizer) (frame : Frame) (a b : ℕ) (chunk : List ℕ) (last : Bool)
    → p.sequence < 2 ^ 16
    → p.ssrc < 2 ^ 32
    → frame.rtp_timestamp < 2 ^ 32
    → IsByte p.payload_type
    → a < 2 ^ 16
    → b < 2 ^ 16
    → read_header (build_packet p frame a b chunk last).0 ≡ record {
      version = 2;
      marker = last;
      payload_type = p.payload_type % 128;
      sequence = p.sequence;
      rtp_timestamp = frame.rtp_timestamp;
      ssrc = p.ssrc;
      is_key = is_none frame.reference_frame_id;
      frame_id = frame.frame_id % 256;
      packet_id = a;
      max_packet_id = b;
      reference = low frame.reference_frame_id;
    }
unfolding read_header build_packet
read_header-build_packet p frame a b chunk last h1 h2 h3 h4 h5 h6 = ground (
  arith,
  second_byte last p.payload_type h4,
  bit_and_0xff frame.frame_id,
  reference_byte frame.reference_frame_id,
)
  where
    reference_byte : (o : Option ℕ) → reference_bytes o ≡ tail_bytes (low o)
    reference_byte none = refl
    reference_byte (some r) = ap (λ (n : ℕ). n ∷ []) (bit_and_0xff r)

get_or-packets_at :
    (p : Packetizer) (frame : Frame) (total rounds index i : ℕ)
    → i < rounds
    → get_or (packets_at p frame total rounds index) i [] ≡ packet_at p frame total (index + i)
get_or-packets_at p frame total zero index i h = absurd (omega arith)
get_or-packets_at p frame total (suc rounds) index zero h =
    ap (packet_at p frame total) (omega arith)
get_or-packets_at p frame total (suc rounds) index (suc i) h =
    get_or-packets_at p frame total rounds (index + 1) i (omega arith)
    ∙ ap (packet_at p frame total) (omega arith)

-- Every packet of a frame carries the header that its place calls for: the marker on the last
-- packet alone, consecutive sequence numbers that wrap at 2 ^ 16, the packet's own index and the
-- index of the last packet, the frame id's low byte, and either the key-frame bit or the low byte
-- of the reference frame's id.
pub packetize_headers :
    (p : Packetizer) (frame : Frame) (i : ℕ)
    → IsValid p
    → p.sequence < 2 ^ 16
    → p.ssrc < 2 ^ 32
    → frame.rtp_timestamp < 2 ^ 32
    → IsByte p.payload_type
    → i < packet_count p frame
    → (packets : List (List ℕ)) × (p' : Packetizer) × (packetize p frame ≡ some (packets, p'))
      × (length packets ≡ packet_count p frame)
      × (read_header (get_or packets i []) ≡ expected p frame (packet_count p frame) i)
packetize_headers p frame i v h1 h2 h3 h4 h =
    let total = packet_count p frame in
    (
      packets_at p frame total total 0,
      at p total,
      packetize-eq p frame v h1,
      length-packets_at p frame total total 0,
      ap read_header (
            get_or-packets_at p frame total total 0 i h
            ∙ ap (packet_at p frame total) (omega arith))
          ∙ read_header-build_packet (at p i) frame (i % 2 ^ 16) ((total - 1) % 2 ^ 16)
              (chunk_at frame i) (i == (total - 1)) (omega arith) h2 h3 h4 (omega arith)
              (omega arith),
    )
