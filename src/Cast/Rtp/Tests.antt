-- ===== src/Cast/Rtp/Tests.antt =====
-- Runs of rtp.rs, and its theorems at concrete frames.
use big_net_screen.Base.{
  ◌⊎◌, ℕ, ◌+◌, ◌-◌, ◌*◌, ◌%◌, ◌^◌, ◌≤◌, ◌<◌, ◌≡◌, refl, arith, none, some, List, [], ◌∷◌, length,
  replicate, get_or, All, slice,
}
use big_net_screen.Cast.Rtp.{
  Frame, Packetizer, max_packet_size, packet_count, packetize, build_packet, nonce,
}
use big_net_screen.Cast.Rtp.Split.{joined, packetize-joined}
use big_net_screen.Cast.Rtp.Header.{read_header, expected, packetize_headers}
use big_net_screen.Cast.Rtp.Crypto.{nonce_injective}

abbrev packetizer : Packetizer
packetizer = record { ssrc = 7; payload_type = 101; sequence = 65535; packet_limit = 1200 }

abbrev small : Frame
small = record {
  frame_id = 300;
  reference_frame_id = some 299;
  rtp_timestamp = 3000;
  payload = 1 ∷ 2 ∷ 3 ∷ [];
}

abbrev large : Frame
large = record {
  frame_id = 0;
  reference_frame_id = none;
  rtp_timestamp = 3000;
  payload = replicate 1200 0x5a;
}

small_run :
    packetize packetizer small
    ≡ some (
      (128 ∷ 229 ∷ 255 ∷ 255 ∷ 0 ∷ 0 ∷ 11 ∷ 184 ∷ 0 ∷ 0 ∷ 0 ∷ 7 ∷ 64 ∷ 44 ∷ 0 ∷ 0 ∷ 0 ∷ 0 ∷ 43 ∷ 1
            ∷ 2 ∷ 3 ∷ [])
          ∷ [],
      record packetizer { sequence = 0 },
    )
unfolding packetize build_packet slice
small_run = refl

packetize-joined_example :
    (packets : List (List ℕ)) × (p' : Packetizer) × (packetize packetizer large
      ≡ some (packets, p'))
    × (joined large packets ≡ replicate 1200 0x5a)
    × (0 < length packets)
    × ((length packets ≡ 1) ⊎ ((length packets - 1) * 1181 < 1200))
    × All (λ packet. length packet ≤ max_packet_size) packets
    × (p' ≡ record packetizer { sequence = (65535 + length packets) % 2 ^ 16 })
packetize-joined_example = packetize-joined packetizer large refl (omega arith)

count_large : packet_count packetizer large ≡ 2
unfolding packet_count
count_large = refl

packetize_headers_example :
    (packets : List (List ℕ)) × (p' : Packetizer) × (packetize packetizer large
      ≡ some (packets, p'))
    × (length packets ≡ packet_count packetizer large)
    × (read_header (get_or packets 1 [])
        ≡ expected packetizer large (packet_count packetizer large) 1)
packetize_headers_example =
    packetize_headers packetizer large 1 refl (omega arith) (omega arith) (omega arith)
      (omega arith) (omega (arith, count_large))

abbrev stream : List ℕ → List ℕ → ℕ → ℕ
stream key iv position = (position * 7 + get_or iv 11 0) % 256

nonce_bytes :
    nonce (replicate 16 0x0f) 0x01020304
    ≡ 15 ∷ 15 ∷ 15 ∷ 15 ∷ 15 ∷ 15 ∷ 15 ∷ 15 ∷ 14 ∷ 13 ∷ 12 ∷ 11 ∷ 15 ∷ 15 ∷ 15 ∷ 15 ∷ []
unfolding nonce
nonce_bytes = refl

nonce_injective_example : ◌≡◌ {A = ℕ} 5 5
nonce_injective_example =
    nonce_injective (replicate 16 0x0f) 5 5 (omega arith) (omega arith) (omega arith) refl
