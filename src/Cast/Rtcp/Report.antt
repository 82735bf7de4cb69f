-- ===== src/Cast/Rtcp/Report.antt =====
-- The outgoing half of rtcp.rs. A `SystemTime` is the time since the Unix epoch as a `Duration`
-- has it, seconds and nanoseconds; a clock before the epoch reads as the epoch.
pub mod Layout
use Prim.Native.Nat.{bit_or}
use big_net_screen.Base.{ℕ, ◌+◌, ◌-◌, ◌*◌, ◌/◌, ◌%◌, ◌^◌, List, [], ◌∷◌, ◌++◌}
use big_net_screen.Base.Bytes.{be16, be32, be64}

abbrev pub pt_sender_report : ℕ
pt_sender_report = 200

abbrev pub rtcp_first_byte : ℕ
rtcp_first_byte = 0b1000_0000

abbrev pub sender_report_size : ℕ
sender_report_size = 28

abbrev pub ntp_unix_offset_secs : ℕ
ntp_unix_offset_secs = 2_208_988_800

pub record SinceEpoch : Type 0 where
  pub secs : ℕ
  pub nanos : ℕ

-- The high word is seconds since 1900 and the low one the fraction; `<<` drops what passes 64 bits.
unfoldable pub ntp_timestamp : SinceEpoch → ℕ
ntp_timestamp at =
    let seconds = at.secs + ntp_unix_offset_secs in
    let fraction = at.nanos * 2 ^ 32 / 1_000_000_000 in bit_or (seconds * 2 ^ 32 % 2 ^ 64) fraction

pub record SenderStats : Type 0 where
  pub packets : ℕ
  pub octets : ℕ

-- Both counters wrap, and the size is cast to 32 bits.
unfoldable pub record_packet : ℕ → SenderStats → SenderStats
record_packet payload_bytes stats = record {
  packets = (stats.packets + 1) % 2 ^ 32;
  octets = (stats.octets + payload_bytes % 2 ^ 32) % 2 ^ 32;
}

unfoldable pub build_sender_report : ℕ → ℕ → ℕ → SenderStats → List ℕ
build_sender_report ssrc ntp rtp_timestamp stats =
    let length_words = sender_report_size / 4 - 1 in
    rtcp_first_byte ∷ pt_sender_report ∷ be16 length_words
    ++ (be32 ssrc
        ++ (be64 ntp ++ (be32 rtp_timestamp ++ (be32 stats.packets ++ be32 stats.octets))))
