-- ===== src/Cast/Rtcp/Feedback.antt =====
-- The Cast feedback blocks of rtcp.rs: the checkpoint, and what the receiver lost.
pub mod Total
pub mod Nacks
pub mod RoundTrip
pub mod Bytes
use Prim.Native.Nat.{bit_and}
use big_net_screen.Base.{
  ℕ, zero, suc, ◌+◌, ◌-◌, ◌*◌, ◌^◌, Bool, true, false, not, ◌&&◌, ◌||◌, Option, none, some, List,
  [], ◌∷◌, ◌++◌, length, slice, get_elem?, ltb, ◌==◌, if◌then◌else◌,
}
use big_net_screen.Base.Bytes.{of_be16, of_be32, be32}
use big_net_screen.Base.Outcome.{Outcome, ok, invalid, fault, ◌>>=◌, ◌>>◌, must}
use big_net_screen.Cast.Rtcp.Blocks.{
  ReceiverPacket, is_feedback, pt_extended_reports, validated_blocks, classify_block, names,
}

pub record Nack : Type 0 where
  pub frame_id : ℕ
  pub packet_id : ℕ
  pub bitmask : ℕ

-- The packets that bit `bit` and those above it name, `rounds` of them. `checked_add` refuses an
-- id past 16 bits, and the filter the id that stands for a whole frame.
unfoldable pub masked_ids : ℕ → ℕ → Nack → List ℕ
masked_ids zero bit nack = []
masked_ids (suc rounds) bit nack =
    let rest = masked_ids rounds (bit + 1) nack in
    if not (bit_and nack.bitmask (2 ^ bit) == 0) && ltb (nack.packet_id + (bit + 1)) 0xffff
    then (nack.packet_id + (bit + 1)) ∷ rest
    else rest

unfoldable pub packet_ids : Nack → Option (List ℕ)
unfolding masked_ids
packet_ids nack =
    if nack.packet_id == 0xffff then none else some (nack.packet_id ∷ masked_ids 8 0 nack)

pub record CastFeedback : Type 0 where
  pub receiver_ssrc : ℕ
  pub reference_time : Option ℕ
  pub sender_ssrc : ℕ
  pub checkpoint_frame_id : ℕ
  pub nacks : List Nack

-- `u32::from_be_bytes(bytes.try_into().unwrap())`
abbrev pub word32 : List ℕ → Outcome ℕ
word32 (a ∷ (b ∷ (c ∷ (d ∷ [])))) = ok (of_be32 a b c d)
word32 _ = fault

abbrev pub word64 : List ℕ → Outcome ℕ
word64 (a ∷ (b ∷ (c ∷ (d ∷ (e ∷ (f ∷ (g ∷ (h ∷ [])))))))) =
    ok (of_be32 a b c d * 2 ^ 32 + of_be32 e f g h)
word64 _ = fault

-- `as_chunks::<4>().0`, each chunk a request.
unfoldable pub losses : List ℕ → List Nack
losses (a ∷ (b ∷ (c ∷ (d ∷ rest)))) =
    record { frame_id = a; packet_id = of_be16 b c; bitmask = d } ∷ losses rest
losses _ = []

-- The reference time at `pos`, if the report there is one.
unfoldable pub time_at : List ℕ → ℕ → Option ℕ → Outcome (Option ℕ)
time_at xr pos seen = do
  kind ← must (get_elem? xr pos)
  elim (kind == 4) [
    | false ↦ ok seen
    | true ↦ do bytes ← must (slice xr (pos + 4) (pos + 12)); time ← word64 bytes; ok (some time)
  ]

-- The walk over one XR block, from `pos` on.
unfoldable pub time_in : ℕ → List ℕ → ℕ → Option ℕ → Outcome (Option ℕ)
unfolding time_at
time_in zero xr pos seen = fault
time_in (suc fuel) xr pos seen = elim (ltb pos (length xr)) [
  | false ↦ ok seen
  | true ↦ do
    high ← must (get_elem? xr (pos + 2))
    low ← must (get_elem? xr (pos + 3))
    let size = (of_be16 high low + 1) * 4
    seen' ← time_at xr pos seen
    time_in fuel xr (pos + size) seen'
]

-- Whether a block is an XR block of this receiver.
unfoldable pub is_reference : ℕ → List ℕ → Outcome Bool
unfolding names
is_reference receiver_ssrc xr = do
  kind ← must (get_elem? xr 1)
  if kind == pt_extended_reports then names xr 4 receiver_ssrc else ok false

unfoldable pub reference_time : ℕ → List (List ℕ) → Option ℕ → Outcome (Option ℕ)
unfolding is_reference time_in
reference_time receiver_ssrc [] seen = ok seen
reference_time receiver_ssrc (xr ∷ blocks) seen = do
  mine ← is_reference receiver_ssrc xr
  seen' ← (if mine then time_in (length xr) xr 8 seen else ok seen)
  reference_time receiver_ssrc blocks seen'

unfoldable pub read_feedback : List (List ℕ) → List ℕ → Outcome CastFeedback
unfolding reference_time losses
read_feedback blocks block = do
  receiver ← must (slice block 4 8)
  receiver_ssrc ← word32 receiver
  sender ← must (slice block 8 12)
  sender_ssrc ← word32 sender
  time ← reference_time receiver_ssrc blocks none
  count ← must (get_elem? block 17)
  list ← must (slice block 20 (20 + count * 4))
  checkpoint ← must (get_elem? block 16)
  ok (record {
    receiver_ssrc = receiver_ssrc;
    reference_time = time;
    sender_ssrc = sender_ssrc;
    checkpoint_frame_id = checkpoint;
    nacks = losses list;
  })

-- The loop over the blocks; `blocks` stays the whole datagram's.
unfoldable pub feedbacks_of : List (List ℕ) → List (List ℕ) → Outcome (List CastFeedback)
unfolding classify_block read_feedback
feedbacks_of blocks [] = ok []
feedbacks_of blocks (block ∷ rest) = do
  kind ← classify_block block
  elim (not (is_feedback kind) || ltb (length block) 20) [
    | true ↦ feedbacks_of blocks rest
    | false ↦ do
      feedback ← read_feedback blocks block
      feedbacks ← feedbacks_of blocks rest
      ok (feedback ∷ feedbacks)
  ]

unfoldable pub parse_cast_feedbacks : List ℕ → Outcome (List CastFeedback)
unfolding validated_blocks feedbacks_of
parse_cast_feedbacks packet = elim (validated_blocks packet) [
  | invalid ↦ ok []
  | fault ↦ fault
  | ok blocks ↦ feedbacks_of blocks blocks
]
