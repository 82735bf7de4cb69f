-- ===== src/Cast/Rtcp/Feedback/RoundTrip.antt =====
-- A feedback block as the receiver sends it, and what rtcp.rs reads of it.
use big_net_screen.Base.{
  ℕ, ◌+◌, ◌-◌, ◌*◌, ◌/◌, ◌%◌, ◌^◌, ◌<◌, ◌≡◌, refl, ap, ap₂, ◌∙◌, true, false, none, some, List, [],
  ◌∷◌, ◌++◌, length, take, take_all, le→ltb_false, slice, slice_in_range, get_elem?, All, ltb,
  arith,
}
use big_net_screen.Base.Bytes.{be16, be32, of_be16, of_be16-be16, of_be32-be32}
use big_net_screen.Base.Outcome.{ok, invalid, fault}
use big_net_screen.Cast.Rtcp.Blocks.{
  cast_feedback, is_cast, classify_block, checks, block_at, validated_blocks,
}
use big_net_screen.Cast.Rtcp.Blocks.Single.{single_block}
use big_net_screen.Cast.Rtcp.Feedback.{
  Nack, CastFeedback, losses, read_feedback, feedbacks_of, parse_cast_feedbacks,
}

-- Four bytes a loss: the frame, the packet and the mask.
abbrev pub loss_bytes : List Nack → List ℕ
loss_bytes [] = []
loss_bytes (n ∷ ns) =
    n.frame_id ∷ (n.packet_id / 2 ^ 8 % 256) ∷ (n.packet_id % 256) ∷ n.bitmask ∷ loss_bytes ns

abbrev pub IsLoss : Nack → Type 0
IsLoss n = n.packet_id < 2 ^ 16

-- Version 2 and format 15, the type, the length in words, both SSRCs, "CAST", the checkpoint, the
-- number of losses, a playout delay, and the losses.
abbrev pub feedback_block : ℕ → ℕ → ℕ → ℕ → List Nack → List ℕ
feedback_block receiver sender checkpoint delay nacks =
    0x8f ∷ 206 ∷ be16 (4 + length nacks)
    ++ (be32 receiver
        ++ (be32 sender
            ++ (67 ∷ 65 ∷ 83 ∷ 84 ∷ checkpoint ∷ length nacks ∷ be16 delay ++ loss_bytes nacks)))

length-loss_bytes : (nacks : List Nack) → length (loss_bytes nacks) ≡ length nacks * 4
length-loss_bytes [] = refl
length-loss_bytes (n ∷ ns) = omega (arith, length-loss_bytes ns)

losses-loss_bytes : (nacks : List Nack) → All IsLoss nacks → losses (loss_bytes nacks) ≡ nacks
unfolding losses
losses-loss_bytes [] h = refl
losses-loss_bytes (n ∷ ns) h =
    ap₂ ◌∷◌ (ap (λ (p : ℕ). record n { packet_id = p }) (of_be16-be16 n.packet_id h.0))
      (losses-loss_bytes ns h.1)

checks_feedback :
    (block : List ℕ) (n end : ℕ)
    → length block ≡ 20 + n * 4
    → is_cast block ≡ true
    → get_elem? block 17 ≡ some n
    → checks block end 206 15 ≡ ok (block, end)
unfolding checks
checks_feedback block n end hl hc hn = rw (
  le→ltb_false (length block) 12 (omega arith),
  hc,
  le→ltb_false (length block) 20 (omega arith),
  hn,
  le→ltb_false (length block) (20 + n * 4) (omega arith),
)

parse-validated :
    (packet : List ℕ) (blocks : List (List ℕ))
    → validated_blocks packet ≡ ok blocks
    → parse_cast_feedbacks packet ≡ feedbacks_of blocks blocks
unfolding parse_cast_feedbacks
parse-validated packet blocks e =
    λ i. elim (e i) [ invalid ↦ ok [] | fault ↦ fault | ok blocks ↦ feedbacks_of blocks blocks ]

feedbacks_of-single :
    (block : List ℕ) (feedback : CastFeedback)
    → classify_block block ≡ ok cast_feedback
    → ltb (length block) 20 ≡ false
    → read_feedback (block ∷ []) block ≡ ok feedback
    → feedbacks_of (block ∷ []) (block ∷ []) ≡ ok (feedback ∷ [])
unfolding feedbacks_of
feedbacks_of-single block feedback c l r = rw (c, l, r)

module _ (receiver sender checkpoint delay : ℕ) (nacks : List Nack) (few : length nacks < 256) where
  abbrev packet : List ℕ
  packet = feedback_block receiver sender checkpoint delay nacks

  length-packet : length packet ≡ 20 + length nacks * 4
  length-packet = omega (arith, length-loss_bytes nacks)

  is_cast-packet : is_cast packet ≡ true
  unfolding is_cast
  is_cast-packet =
      rw (slice_in_range packet 12 16 (omega arith) (omega (arith, length-packet)), is_cast)

  whole : slice packet 0 (length packet) ≡ some packet
  whole =
      slice_in_range packet 0 (length packet) (omega arith) (omega arith)
      ∙ ap some (take_all (length packet - 0) packet (omega arith))

  words :
      0 + (of_be16 ((4 + length nacks) / 2 ^ 8 % 256) ((4 + length nacks) % 256) + 1) * 4
      ≡ length packet
  words = omega (arith, length-packet)

  block_at-packet : block_at packet 0 ≡ ok (packet, length packet)
  unfolding block_at
  block_at-packet =
      rw (slice_in_range packet 0 4 (omega arith) (omega (arith, length-packet)), words, whole)
        (checks_feedback packet (length nacks) (length packet) length-packet is_cast-packet refl)

  validated_blocks-packet : validated_blocks packet ≡ ok (packet ∷ [])
  validated_blocks-packet =
      single_block packet packet (omega (arith, length-packet)) block_at-packet

  classify-packet : classify_block packet ≡ ok cast_feedback
  unfolding classify_block
  classify-packet = rw is_cast-packet

  tail_bytes : take (20 + length nacks * 4 - 20) (loss_bytes nacks) ≡ loss_bytes nacks
  tail_bytes =
      take_all (20 + length nacks * 4 - 20) (loss_bytes nacks)
        (omega (arith, length-loss_bytes nacks))

  read_feedback-packet :
      receiver < 2 ^ 32
      → sender < 2 ^ 32
      → All IsLoss nacks
      → read_feedback (packet ∷ []) packet
        ≡ ok (record {
          receiver_ssrc = receiver;
          reference_time = none;
          sender_ssrc = sender;
          checkpoint_frame_id = checkpoint;
          nacks = nacks;
        })
  unfolding read_feedback
  read_feedback-packet hr hs hn = rw (
    slice_in_range packet 4 8 (omega arith) (omega (arith, length-packet)),
    slice_in_range packet 8 12 (omega arith) (omega (arith, length-packet)),
    slice_in_range packet 20 (20 + length nacks * 4) (omega arith) (omega (arith, length-packet)),
    of_be32-be32 receiver hr,
    of_be32-be32 sender hs,
    tail_bytes,
    losses-loss_bytes nacks hn,
  )

  not_short : ltb (length packet) 20 ≡ false
  not_short = le→ltb_false (length packet) 20 (omega (arith, length-packet))

  -- A datagram that is one feedback block gives back just what the receiver put there: both
  -- SSRCs, the checkpoint, and every loss in order, for any number of losses that the count's
  -- byte can hold.
  pub parse-feedback_block :
      receiver < 2 ^ 32
      → sender < 2 ^ 32
      → All IsLoss nacks
      → parse_cast_feedbacks (feedback_block receiver sender checkpoint delay nacks)
        ≡ ok (
            record {
              receiver_ssrc = receiver;
              reference_time = none;
              sender_ssrc = sender;
              checkpoint_frame_id = checkpoint;
              nacks = nacks;
            }
            ∷ [])
  unfolding parse_cast_feedbacks
  parse-feedback_block hr hs hn =
      parse-validated packet (packet ∷ []) validated_blocks-packet
      ∙ feedbacks_of-single packet _ classify-packet not_short (read_feedback-packet hr hs hn)
