-- ===== src/Cast/Rtp.antt =====
-- crates/nd-chromecast/src/rtp.rs: frames split into Cast RTP packets, and their encryption.
-- A byte is a number below 256. `ctr` and `aes` give the keystream, a parameter of `encrypt_frame`.
pub mod Split
pub mod Header
pub mod Crypto
mod Tests
use Prim.Native.Nat.{bit_and, bit_or, bit_xor}
use big_net_screen.Base.{
  ℕ, zero, suc, ◌+◌, ◌-◌, ◌*◌, ◌/◌, ◌%◌, ◌^◌, min, max, Bool, true, false, Option, none, some, List,
  [], ◌∷◌, ◌++◌, length, slice, take, drop, replicate, ◌==◌, if◌then◌else◌,
}
use big_net_screen.Base.Bytes.{be16, be32}

abbrev pub key_frame_bit : ℕ
key_frame_bit = 0b1000_0000

abbrev pub reference_id_bit : ℕ
reference_id_bit = 0b0100_0000

abbrev pub marker_bit : ℕ
marker_bit = 0b1000_0000

abbrev pub rtp_first_byte : ℕ
rtp_first_byte = 0b1000_0000

abbrev pub rtp_header_size : ℕ
rtp_header_size = 12

abbrev pub cast_header_size : ℕ
cast_header_size = 6

abbrev pub max_packet_size : ℕ
max_packet_size = 1200

pub record Frame : Type 0 where
  pub frame_id : ℕ
  pub reference_frame_id : Option ℕ
  pub rtp_timestamp : ℕ
  pub payload : List ℕ

pub record Packetizer : Type 0 where
  pub ssrc : ℕ
  pub payload_type : ℕ
  pub sequence : ℕ
  pub packet_limit : ℕ

unfoldable pub new : ℕ → ℕ → Packetizer
new ssrc payload_type = record {
  ssrc = ssrc;
  payload_type = payload_type;
  sequence = 0;
  packet_limit = max_packet_size;
}

unfoldable pub max_payload_size : Packetizer → ℕ
max_payload_size p = p.packet_limit - rtp_header_size - cast_header_size - 1

-- The key-frame bit, or the bit of the reference id.
unfoldable pub flags : Option ℕ → ℕ
flags none = bit_or 0 key_frame_bit
flags (some reference) = bit_or 0 reference_id_bit

unfoldable pub reference_bytes : Option ℕ → List ℕ
reference_bytes none = []
reference_bytes (some reference) = bit_and reference 0xff ∷ []

-- The packet, and the packetizer with its sequence number moved on.
unfoldable pub build_packet : Packetizer → Frame → ℕ → ℕ → List ℕ → Bool → List ℕ × Packetizer
unfolding flags reference_bytes
build_packet p frame packet_id max_packet_id chunk is_last =
    let header =
      rtp_first_byte
        ∷ bit_or (if is_last then marker_bit else 0) (bit_and p.payload_type 0x7f)
        ∷ be16 p.sequence
      ++ (be32 frame.rtp_timestamp ++ be32 p.ssrc) in
    let cast =
      flags frame.reference_frame_id ∷ bit_and frame.frame_id 0xff ∷ be16 packet_id
      ++ (be16 max_packet_id ++ reference_bytes frame.reference_frame_id) in
    (header ++ (cast ++ chunk), record p { sequence = (p.sequence + 1) % 2 ^ 16 })

-- The packets of the indices from `index` on, `rounds` of them. `none` is the panic of a slice
-- out of range.
unfoldable pub packets_from : ℕ → ℕ → ℕ → Packetizer → Frame → Option (List (List ℕ) × Packetizer)
packets_from zero index total p frame = some ([], p)
packets_from (suc rounds) index total p frame =
    let limit = max_payload_size p in
    let start = index * limit in
    let end = min ((index + 1) * limit) (length frame.payload) in
    elim (slice frame.payload start end) [
      | none ↦ none
      | some chunk ↦
          let (packet, p') =
            build_packet p frame (index % 2 ^ 16) ((total - 1) % 2 ^ 16) chunk
              (index == (total - 1)) in
          elim (packets_from rounds (index + 1) total p' frame) [
            | none ↦ none
            | some (packets, p'') ↦ some (packet ∷ packets, p'')
          ]
    ]

-- `div_ceil(payload_limit).max(1)`
unfoldable pub packet_count : Packetizer → Frame → ℕ
unfolding max_payload_size
packet_count p frame =
    let limit = max_payload_size p in max ((length frame.payload + limit - 1) / limit) 1

unfoldable pub packetize : Packetizer → Frame → Option (List (List ℕ) × Packetizer)
unfolding packets_from packet_count
packetize p frame = let total = packet_count p frame in packets_from total 0 total p frame

-- The frame id, big-endian at offset 8 of a zeroed block.
unfoldable pub nonce_block : ℕ → List ℕ
nonce_block frame_id = replicate 8 0 ++ (be32 frame_id ++ replicate 4 0)

-- `for (byte, mask) in a.zip(b) { byte ^= mask }`: bytes past the mask stay.
unfoldable pub xor_with : List ℕ → List ℕ → List ℕ
xor_with [] masks = []
xor_with (b ∷ bs) [] = b ∷ bs
xor_with (b ∷ bs) (m ∷ masks) = bit_xor b m ∷ xor_with bs masks

unfoldable pub nonce : List ℕ → ℕ → List ℕ
unfolding nonce_block xor_with
nonce iv_mask frame_id = xor_with (nonce_block frame_id) iv_mask

-- The crate's stream cipher: CTR mode XORs the data with bytes that the key and the nonce decide.
module _ (keystream : List ℕ → List ℕ → ℕ → ℕ) where
  unfoldable pub apply_keystream : List ℕ → List ℕ → ℕ → List ℕ → List ℕ
  apply_keystream key iv position [] = []
  apply_keystream key iv position (b ∷ bs) =
      bit_xor b (keystream key iv position) ∷ apply_keystream key iv (position + 1) bs

  unfoldable pub encrypt_frame : List ℕ → List ℕ → ℕ → List ℕ → List ℕ
  unfolding apply_keystream nonce
  encrypt_frame key iv_mask frame_id bytes = apply_keystream key (nonce iv_mask frame_id) 0 bytes
