-- ===== src/Cast/Rtcp/Tests.antt =====
-- Runs of rtcp.rs, and its theorems at concrete datagrams.
use big_net_screen.Base.{
  ℕ, ◌+◌, ◌*◌, ◌^◌, ◌≤◌, ◌≡◌, ◌≢◌, refl, Bool, none, some, List, [], ◌∷◌, ◌++◌, length, All, arith,
}
use big_net_screen.Base.Bytes.{be16, be32}
use big_net_screen.Base.Outcome.{ok, invalid, Safe}
use big_net_screen.Cast.Rtcp.Report.{SenderStats, build_sender_report}
use big_net_screen.Cast.Rtcp.Report.Layout.{word_at, sender_report_fields}
use big_net_screen.Cast.Rtcp.Blocks.{validated_blocks, picture_loss_for}
use big_net_screen.Cast.Rtcp.Blocks.Safety.{IsBlock, validated_blocks-Safe}
use big_net_screen.Cast.Rtcp.Blocks.Readers.{picture_loss_for_total}
use big_net_screen.Cast.Rtcp.Feedback.{Nack, CastFeedback, packet_ids, parse_cast_feedbacks}
use big_net_screen.Cast.Rtcp.Feedback.Nacks.{mem, covers, packet_ids-covers}
use big_net_screen.Cast.Rtcp.Feedback.Total.{parse_cast_feedbacks_total}
use big_net_screen.Cast.Rtcp.Feedback.RoundTrip.{feedback_block, parse-feedback_block}

abbrev two_losses : List Nack
two_losses =
    record { frame_id = 9; packet_id = 3; bitmask = 0b101 }
    ∷ record { frame_id = 10; packet_id = 0xffff; bitmask = 0 }
    ∷ []

abbrev two_losses_block : List ℕ
two_losses_block = feedback_block 0x1001 0x2002 8 400 two_losses

-- An XR block with one reference time, then a feedback block of the same receiver.
abbrev timed : List ℕ
timed =
    0x80 ∷ 207 ∷ be16 4
    ++ (be32 7 ++ (4 ∷ 0 ∷ 0 ∷ 2 ∷ be32 1 ++ (be32 2 ++ feedback_block 7 8 5 400 [])))

timed_run :
    parse_cast_feedbacks timed
    ≡ ok (
        record {
          receiver_ssrc = 7;
          reference_time = some (2 ^ 32 + 2);
          sender_ssrc = 8;
          checkpoint_frame_id = 5;
          nacks = [];
        }
        ∷ [])
unfolding parse_cast_feedbacks
timed_run = refl

truncated_run : validated_blocks (0x81 ∷ 206 ∷ 0 ∷ 9 ∷ 1 ∷ 2 ∷ []) ≡ invalid
unfolding validated_blocks
truncated_run = refl

packet_ids_run :
    packet_ids (record { frame_id = 9; packet_id = 3; bitmask = 0b101 }) ≡ some (3 ∷ 4 ∷ 6 ∷ [])
unfolding packet_ids
packet_ids_run = refl

abbrev some_stats : SenderStats
some_stats = record { packets = 70000; octets = 80000000 }

sender_report_fields_example :
    let report = build_sender_report 0xdeadbeef (2 ^ 63 + 5) 90000 some_stats in
    (length report ≡ 28)
    × (word_at report 0 ≡ 0x80c8_0006)
    × (word_at report 4 ≡ 0xdeadbeef)
    × (word_at report 8 * 2 ^ 32 + word_at report 12 ≡ 2 ^ 63 + 5)
    × (word_at report 16 ≡ 90000)
    × (word_at report 20 ≡ 70000)
    × (word_at report 24 ≡ 80000000)
    × (validated_blocks report ≡ ok (report ∷ []))
sender_report_fields_example =
    sender_report_fields 0xdeadbeef (2 ^ 63 + 5) 90000 some_stats (omega arith) (omega arith)
      (omega arith) (omega arith) (omega arith)

validated_blocks-Safe_example : Safe (All IsBlock) (validated_blocks timed)
validated_blocks-Safe_example = validated_blocks-Safe timed

timed_picture : (hit : Bool) × (picture_loss_for timed 7 8 ≡ ok hit)
timed_picture = picture_loss_for_total timed 7 8

abbrev one_nack : Nack
one_nack = record { frame_id = 9; packet_id = 3; bitmask = 0b101 }

packet_ids-covers_example :
    (one_nack.packet_id ≡ 0xffff → packet_ids one_nack ≡ none)
    × (one_nack.packet_id ≢ 0xffff
        → (ids : List ℕ) × (packet_ids one_nack ≡ some ids)
          × (mem 6 ids ≡ covers one_nack 6)
          × (length ids ≤ 9))
packet_ids-covers_example = packet_ids-covers one_nack 6 (omega arith)

parse_cast_feedbacks_total_example :
    (feedbacks : List CastFeedback) × (parse_cast_feedbacks timed ≡ ok feedbacks)
parse_cast_feedbacks_total_example = parse_cast_feedbacks_total timed

parse-feedback_block_example :
    parse_cast_feedbacks two_losses_block
    ≡ ok (
        record {
          receiver_ssrc = 0x1001;
          reference_time = none;
          sender_ssrc = 0x2002;
          checkpoint_frame_id = 8;
          nacks = two_losses;
        }
        ∷ [])
parse-feedback_block_example =
    parse-feedback_block 0x1001 0x2002 8 400 two_losses (omega arith) (omega arith) (omega arith)
      (omega arith, (omega arith, tt))
