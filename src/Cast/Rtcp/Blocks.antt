-- ===== src/Cast/Rtcp/Blocks.antt =====
-- The validation of a compound datagram in rtcp.rs. A byte index never reaches the end of the
-- address space, so `checked_add` and the other sums of offsets are plain ones.
pub mod Reports
pub mod Safety
pub mod Single
pub mod Loss
pub mod Readers
use Prim.Native.Nat.{bit_and}
use big_net_screen.Base.{
  ℕ, zero, suc, ◌+◌, ◌-◌, ◌*◌, ◌/◌, ◌%◌, ◌^◌, Bool, true, false, not, ◌&&◌, ◌||◌, Option, none,
  some, List, [], ◌∷◌, length, slice, take, get_elem?, get_or, ltb, leb, ◌==◌, if◌then◌else◌,
}
use big_net_screen.Base.Bytes.{of_be16, be32}
use big_net_screen.Base.Outcome.{Outcome, ok, invalid, fault, ◌>>=◌, ◌>>◌, reject_if, try, must}

abbrev pub pt_receiver_report : ℕ
pt_receiver_report = 201

abbrev pub pt_application_defined : ℕ
pt_application_defined = 204

abbrev pub pt_payload_specific : ℕ
pt_payload_specific = 206

abbrev pub pt_extended_reports : ℕ
pt_extended_reports = 207

pub data ReceiverPacket : Type 0 where
  receiver_report : ReceiverPacket
  picture_loss_indication : ReceiverPacket
  cast_feedback : ReceiverPacket
  extended_report : ReceiverPacket
  receiver_log : ReceiverPacket
  other : ℕ → ReceiverPacket

-- The bytes of "CAST".
abbrev pub cast_identifier : List ℕ
cast_identifier = 67 ∷ 65 ∷ 83 ∷ 84 ∷ []

unfoldable pub bytes_eq : List ℕ → List ℕ → Bool
bytes_eq [] [] = true
bytes_eq [] (y ∷ ys) = false
bytes_eq (x ∷ xs) [] = false
bytes_eq (x ∷ xs) (y ∷ ys) = (x == y) && bytes_eq xs ys

-- `block.get(12..16) == Some(CAST_IDENTIFIER)`
unfoldable pub is_cast : List ℕ → Bool
unfolding bytes_eq slice
is_cast block = elim (slice block 12 16) [
  | none ↦ false
  | some word ↦ bytes_eq word cast_identifier
]

abbrev pub last? : List ℕ → Option ℕ
last? [] = none
last? (x ∷ []) = some x
last? (x ∷ (y ∷ ys)) = last? (y ∷ ys)

unfoldable pub minimum : ℕ → ℕ → ℕ
minimum packet_type count =
    if packet_type == 200
    then 28 + 24 * count
    else if packet_type == pt_receiver_report
    then 8 + 24 * count
    else if packet_type == pt_application_defined
    then 12
    else if (packet_type == pt_payload_specific) || (packet_type == 205)
    then 12
    else if packet_type == pt_extended_reports
    then 8
    else 4

-- RTCP padding is legal on the last block alone, and its count is the last byte.
unfoldable pub strip_padding : List ℕ → ℕ → ℕ → List ℕ → Outcome (List ℕ)
strip_padding packet end first block = if bit_and first 0x20 == 0 then ok block else do
  reject_if (not (end == length packet))
  padding ← try (last? block)
  reject_if ((padding == 0) || ltb (length block - 4) padding)
  ok (take (length block - padding) block)

-- A Cast block that does not hold the losses it announces. `block[17]` is read after the length.
unfoldable pub lacks_losses : ℕ → ℕ → List ℕ → Outcome Bool
unfolding is_cast
lacks_losses packet_type count block =
    if (packet_type == pt_payload_specific) && ((count == 15) && is_cast block)
    then (if ltb (length block) 20
        then ok true
        else do losses ← must (get_elem? block 17); ok (ltb (length block) (20 + losses * 4)))
    else ok false

-- The walk over the reports of an XR block, from `pos` on.
unfoldable pub check_reports : ℕ → List ℕ → ℕ → Outcome (Unit {0})
check_reports zero block pos = fault
check_reports (suc fuel) block pos = elim (ltb pos (length block)) [
  | false ↦ ok tt
  | true ↦ do
    xr ← try (slice block pos (pos + 4))
    let size = (of_be16 (get_or xr 2 0) (get_or xr 3 0) + 1) * 4
    report ← try (slice block pos (pos + size))
    reject_if ((get_or xr 0 0 == 4) && not (size == 12))
    check_reports fuel block (pos + size)
]

-- The checks of a round on the block without its padding.
unfoldable pub checks : List ℕ → ℕ → ℕ → ℕ → Outcome (List ℕ × ℕ)
unfolding minimum lacks_losses check_reports
checks block end packet_type count = do
  reject_if (ltb (length block) (minimum packet_type count))
  reject_if ((packet_type == pt_payload_specific) && ((count == 1) && not (length block == 12)))
  lacking ← lacks_losses packet_type count block
  reject_if lacking
  checked ←
      (if packet_type == pt_extended_reports then check_reports (length block) block 8 else ok tt)
  ok (block, end)

-- One round of the loop: the block at `offset` without its padding, and where it ends.
unfoldable pub block_at : List ℕ → ℕ → Outcome (List ℕ × ℕ)
unfolding strip_padding checks
block_at packet offset = do
  header ← try (slice packet offset (offset + 4))
  let first = get_or header 0 0
  let packet_type = get_or header 1 0
  reject_if (not (first / 2 ^ 6 == 2) || not (leb 200 packet_type && leb packet_type 207))
  let words = of_be16 (get_or header 2 0) (get_or header 3 0)
  let end = offset + (words + 1) * 4
  whole ← try (slice packet offset end)
  block ← strip_padding packet end first whole
  checks block end packet_type (bit_and first 0x1f)

unfoldable pub blocks_from : ℕ → List ℕ → ℕ → Outcome (List (List ℕ))
unfolding block_at
blocks_from zero packet offset = fault
blocks_from (suc fuel) packet offset = elim (ltb offset (length packet)) [
  | false ↦ ok []
  | true ↦ do
    (block, end) ← block_at packet offset
    rest ← blocks_from fuel packet end
    ok (block ∷ rest)
]

-- A block takes four bytes at least, so the loop ends before the fuel does.
unfoldable pub validated_blocks : List ℕ → Outcome (List (List ℕ))
unfolding blocks_from
validated_blocks packet = do
  reject_if (length packet == 0)
  blocks_from (suc (length packet)) packet 0

unfoldable pub classify : ℕ → ℕ → Bool → ReceiverPacket
classify packet_type count cast =
    if packet_type == pt_receiver_report
    then receiver_report
    else if packet_type == pt_extended_reports
    then extended_report
    else if packet_type == pt_application_defined
    then receiver_log
    else if (packet_type == pt_payload_specific) && (count == 1)
    then picture_loss_indication
    else if (packet_type == pt_payload_specific) && ((count == 15) && cast)
    then cast_feedback
    else other packet_type

unfoldable pub classify_block : List ℕ → Outcome ReceiverPacket
unfolding classify is_cast
classify_block block = do
  packet_type ← must (get_elem? block 1)
  first ← must (get_elem? block 0)
  ok (classify packet_type (bit_and first 0x1f) (is_cast block))

abbrev pub is_feedback : ReceiverPacket → Bool
is_feedback cast_feedback = true
is_feedback _ = false

abbrev pub is_loss : ReceiverPacket → Bool
is_loss picture_loss_indication = true
is_loss _ = false

-- `block[start..start + 4] == ssrc.to_be_bytes()`
unfoldable pub names : List ℕ → ℕ → ℕ → Outcome Bool
unfolding bytes_eq
names block start ssrc = do
  word ← must (slice block start (start + 4))
  ok (bytes_eq word (be32 ssrc))

unfoldable pub names_both : List ℕ → ℕ → ℕ → Outcome Bool
unfolding names
names_both block receiver_ssrc sender_ssrc = do
  from_receiver ← names block 4 receiver_ssrc
  if from_receiver then names block 8 sender_ssrc else ok false

-- The closure of `any`.
unfoldable pub asks_picture : ℕ → ℕ → List ℕ → Outcome Bool
unfolding classify_block names_both
asks_picture receiver_ssrc sender_ssrc block = do
  kind ← classify_block block
  if is_loss kind then names_both block receiver_ssrc sender_ssrc else ok false

unfoldable pub any_loss : ℕ → ℕ → List (List ℕ) → Outcome Bool
unfolding asks_picture
any_loss receiver_ssrc sender_ssrc [] = ok false
any_loss receiver_ssrc sender_ssrc (block ∷ blocks) = do
  hit ← asks_picture receiver_ssrc sender_ssrc block
  elim hit [ true ↦ ok true | false ↦ any_loss receiver_ssrc sender_ssrc blocks ]

unfoldable pub picture_loss_for : List ℕ → ℕ → ℕ → Outcome Bool
unfolding validated_blocks any_loss
picture_loss_for packet receiver_ssrc sender_ssrc = elim (validated_blocks packet) [
  | invalid ↦ ok false
  | fault ↦ fault
  | ok blocks ↦ any_loss receiver_ssrc sender_ssrc blocks
]
