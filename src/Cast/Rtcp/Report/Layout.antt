-- ===== src/Cast/Rtcp/Report/Layout.antt =====
-- What a receiver reads from the sender reports of rtcp.rs.
use Prim.Native.Nat.{bit_or}
use big_net_screen.Base.{
  ℕ, ◌+◌, ◌*◌, ◌/◌, ◌%◌, ◌^◌, ◌≤◌, ◌<◌, ◌≡◌, refl, ap, ◌∙◌, List, [], ◌∷◌, length, get_or, arith,
}
use big_net_screen.Base.Bits.Or.{bit_or_word}
use big_net_screen.Base.Bytes.{of_be32}
use big_net_screen.Base.Outcome.{ok}
use big_net_screen.Cast.Rtcp.Report.{
  SinceEpoch, SenderStats, ntp_unix_offset_secs, ntp_timestamp, build_sender_report,
}
use big_net_screen.Cast.Rtcp.Blocks.{block_at, validated_blocks}
use big_net_screen.Cast.Rtcp.Blocks.Single.{single_block}

abbrev pub word_at : List ℕ → ℕ → ℕ
word_at bytes i =
    of_be32 (get_or bytes i 0) (get_or bytes (i + 1) 0) (get_or bytes (i + 2) 0)
      (get_or bytes (i + 3) 0)

-- A sender report is 28 bytes. Its first word is that of RFC 3550: version 2 without reports, the
-- packet type 200 and the length of six more words. Every other field reads back from its offset,
-- and this module's own validation takes it for one whole block.
pub sender_report_fields :
    (ssrc ntp rtp_timestamp : ℕ) (stats : SenderStats)
    → ssrc < 2 ^ 32
    → ntp < 2 ^ 64
    → rtp_timestamp < 2 ^ 32
    → stats.packets < 2 ^ 32
    → stats.octets < 2 ^ 32
    → let report = build_sender_report ssrc ntp rtp_timestamp stats in
      (length report ≡ 28)
      × (word_at report 0 ≡ 0x80c8_0006)
      × (word_at report 4 ≡ ssrc)
      × (word_at report 8 * 2 ^ 32 + word_at report 12 ≡ ntp)
      × (word_at report 16 ≡ rtp_timestamp)
      × (word_at report 20 ≡ stats.packets)
      × (word_at report 24 ≡ stats.octets)
      × (validated_blocks report ≡ ok (report ∷ []))
unfolding build_sender_report
sender_report_fields ssrc ntp rtp_timestamp stats h1 h2 h3 h4 h5 = (
  refl,
  refl,
  omega arith,
  omega arith,
  omega arith,
  omega arith,
  omega arith,
  single_block (build_sender_report ssrc ntp rtp_timestamp stats) _ (omega arith)
      (unfold block_at in refl),
)

-- For an instant before 2036 the timestamp fits 64 bits: its high word is the seconds since 1900,
-- and its low word the fraction, the nanoseconds on a scale of 2 ^ 32 a second, rounded down.
pub ntp_timestamp_words :
    (at : SinceEpoch)
    → at.secs + ntp_unix_offset_secs < 2 ^ 32
    → at.nanos < 1_000_000_000
    → (ntp_timestamp at / 2 ^ 32 ≡ at.secs + ntp_unix_offset_secs)
      × (ntp_timestamp at % 2 ^ 32 * 1_000_000_000 ≤ at.nanos * 2 ^ 32)
      × (at.nanos * 2 ^ 32 < (ntp_timestamp at % 2 ^ 32 + 1) * 1_000_000_000)
unfolding ntp_timestamp
ntp_timestamp_words at h k =
    let sum : ntp_timestamp at
        ≡ (at.secs + ntp_unix_offset_secs) * 2 ^ 32 + at.nanos * 2 ^ 32 / 1_000_000_000 =
      ap (λ (t : ℕ). bit_or t (at.nanos * 2 ^ 32 / 1_000_000_000)) (omega arith)
      ∙ bit_or_word 32 (at.secs + ntp_unix_offset_secs) (at.nanos * 2 ^ 32 / 1_000_000_000)
          (omega arith) in
    rw sum (omega arith)
