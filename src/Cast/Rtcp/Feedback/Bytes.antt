-- ===== src/Cast/Rtcp/Feedback/Bytes.antt =====
-- The checkpoints that rtcp.rs reads from a datagram are bytes.
use big_net_screen.Base.{
  ℕ, zero, suc, ◌+◌, ◌-◌, ◌*◌, ◌/◌, ◌^◌, ◌<◌, ◌≡◌, sym, Bool, true, false, not, ◌&&◌, ◌||◌, none,
  List, [], ◌∷◌, length, take, drop, slice, slice-some, get_elem?, get_or, All, ltb, leb, ◌==◌,
  if◌then◌else◌, Option-cases, inl, inr,
}
use Prim.Native.Nat.{bit_and}
use mathlib.Core.Path.{subst}
use big_net_screen.Base.Bytes.{IsByte, of_be16}
use big_net_screen.Base.Outcome.{Outcome, ok, invalid, fault, ◌>>=◌, reject_if, try, must}
use big_net_screen.Cast.Rtcp.Blocks.{
  is_feedback, last?, minimum, strip_padding, lacks_losses, check_reports, checks, block_at,
  blocks_from, validated_blocks, classify_block,
}
use big_net_screen.Cast.Rtcp.Feedback.{
  CastFeedback, word32, reference_time, read_feedback, feedbacks_of, parse_cast_feedbacks,
}

All-take : (n : ℕ) (xs : List ℕ) → All IsByte xs → All IsByte (take n xs)
All-take zero xs h = tt
All-take (suc n) [] h = tt
All-take (suc n) (x ∷ xs) h = (h.0, All-take n xs h.1)

All-drop : (n : ℕ) (xs : List ℕ) → All IsByte xs → All IsByte (drop n xs)
All-drop zero xs h = h
All-drop (suc n) [] h = tt
All-drop (suc n) (x ∷ xs) h = All-drop n xs h.1

-- That an outcome is no fault is proved elsewhere; here any outcome may be one.
abbrev Gives {ℓ} : {A : Type ℓ} → (A → Type 0) → Outcome A → Type 0
Gives P (ok a) = P a
Gives P invalid = Unit
Gives P fault = Unit

bind-Gives {ℓ κ} :
    {A : Type ℓ} {B : Type κ} (P : A → Type 0) (Q : B → Type 0) (m : Outcome A) (f : A → Outcome B)
    → Gives P m
    → ((a : A) → P a → Gives Q (f a))
    → Gives Q (m >>= f)
bind-Gives P Q (ok a) f h k = k a h
bind-Gives P Q invalid f h k = tt
bind-Gives P Q fault f h k = tt

-- Past a step of which nothing is needed.
skip-Gives {ℓ κ} :
    {A : Type ℓ} {B : Type κ} (Q : B → Type 0) (m : Outcome A) (f : A → Outcome B)
    → ((a : A) → Gives Q (f a))
    → Gives Q (m >>= f)
skip-Gives Q (ok a) f k = k a
skip-Gives Q invalid f k = tt
skip-Gives Q fault f k = tt

if-Gives {ℓ} :
    {A : Type ℓ} (P : A → Type 0) (b : Bool) (m n : Outcome A)
    → Gives P m
    → Gives P n
    → Gives P (if b then m else n)
if-Gives P true m n h k = h
if-Gives P false m n h k = k

elim-Gives {ℓ} :
    {A : Type ℓ} (P : A → Type 0) (b : Bool) (m n : Outcome A)
    → Gives P m
    → Gives P n
    → Gives P (elim b [ false ↦ n | true ↦ m ])
elim-Gives P true m n h k = h
elim-Gives P false m n h k = k

slice_bytes :
    (xs : List ℕ) (start end : ℕ) → All IsByte xs → Gives (All IsByte) (try (slice xs start end))
slice_bytes xs start end h = elim (Option-cases (slice xs start end)) [
  | inl e ↦ rw e tt
  | inr (ys, e) ↦
      let (_, _, taken) = slice-some xs start end e in
      rw e (
        subst (All IsByte) (sym taken)
          (All-take (end - start) (drop start xs) (All-drop start xs h)))
]

strip_padding_bytes :
    (packet : List ℕ) (end first : ℕ) (block : List ℕ)
    → All IsByte block
    → Gives (All IsByte) (strip_padding packet end first block)
unfolding strip_padding
strip_padding_bytes packet end first block h =
    if-Gives (All IsByte) (bit_and first 0x20 == 0) (ok block) _ h (
      skip-Gives (All IsByte) (reject_if (not (end == length packet))) _ λ _.
        skip-Gives (All IsByte) (try (last? block)) _ λ padding.
          skip-Gives (All IsByte) (reject_if ((padding == 0) || ltb (length block - 4) padding)) _
            λ _. All-take (length block - padding) block h)

BlockBytes : List ℕ × ℕ → Type 0
BlockBytes round = All IsByte round.0

checks_bytes :
    (block : List ℕ) (end kind count : ℕ)
    → All IsByte block
    → Gives BlockBytes (checks block end kind count)
unfolding checks BlockBytes
checks_bytes block end kind count h =
    skip-Gives BlockBytes (reject_if (ltb (length block) (minimum kind count))) _ λ _.
      skip-Gives BlockBytes
        (reject_if ((kind == 206) && ((count == 1) && not (length block == 12)))) _
        λ _. skip-Gives BlockBytes (lacks_losses kind count block) _ λ lacking.
          skip-Gives BlockBytes (reject_if lacking) _ λ _.
            skip-Gives BlockBytes
              (if kind == 207 then check_reports (length block) block 8 else ok tt) _ λ _. h

block_at_bytes :
    (packet : List ℕ) (offset : ℕ) → All IsByte packet → Gives BlockBytes (block_at packet offset)
unfolding block_at
block_at_bytes packet offset h =
    skip-Gives BlockBytes (try (slice packet offset (offset + 4))) _ λ header.
      let first = get_or header 0 0 in
      let kind = get_or header 1 0 in
      skip-Gives BlockBytes
        (reject_if (not (first / 2 ^ 6 == 2) || not (leb 200 kind && leb kind 207))) _
        λ _.
          let end = offset + (of_be16 (get_or header 2 0) (get_or header 3 0) + 1) * 4 in
          bind-Gives (All IsByte) BlockBytes (try (slice packet offset end)) _
            (slice_bytes packet offset end h)
            λ whole hw.
              bind-Gives (All IsByte) BlockBytes (strip_padding packet end first whole) _
                (strip_padding_bytes packet end first whole hw)
                λ block hb. checks_bytes block end kind (bit_and first 0x1f) hb

blocks_from_bytes :
    (fuel : ℕ) (packet : List ℕ) (offset : ℕ)
    → All IsByte packet
    → Gives (All (All IsByte)) (blocks_from fuel packet offset)
unfolding blocks_from
blocks_from_bytes zero packet offset h = tt
blocks_from_bytes (suc fuel) packet offset h =
    elim-Gives (All (All IsByte)) (ltb offset (length packet)) _ (ok [])
      (bind-Gives BlockBytes (All (All IsByte)) (block_at packet offset) _
        (block_at_bytes packet offset h)
        λ round r.
          bind-Gives (All (All IsByte)) (All (All IsByte)) (blocks_from fuel packet round.1) _
            (blocks_from_bytes fuel packet round.1 h) λ rest hs. (unfold BlockBytes in r, hs))
      tt

-- The wire id of a frame is a byte.
abbrev pub WireId : CastFeedback → Type 0
WireId f = f.checkpoint_frame_id < 256

element-IsByte : (xs : List ℕ) (i : ℕ) → All IsByte xs → Gives IsByte (must (get_elem? xs i))
element-IsByte [] i h = tt
element-IsByte (x ∷ xs) zero h = h.0
element-IsByte (x ∷ xs) (suc i) h = element-IsByte xs i h.1

read_feedback_bytes :
    (blocks : List (List ℕ)) (block : List ℕ)
    → All IsByte block
    → Gives WireId (read_feedback blocks block)
unfolding read_feedback
read_feedback_bytes blocks block h = skip-Gives WireId (must (slice block 4 8)) _ λ receiver.
    skip-Gives WireId (word32 receiver) _ λ receiver_ssrc.
      skip-Gives WireId (must (slice block 8 12)) _ λ sender.
        skip-Gives WireId (word32 sender) _ λ sender_ssrc.
          skip-Gives WireId (reference_time receiver_ssrc blocks none) _ λ time.
            skip-Gives WireId (must (get_elem? block 17)) _ λ count.
              skip-Gives WireId (must (slice block 20 (20 + count * 4))) _ λ list.
                bind-Gives IsByte WireId (must (get_elem? block 16)) _ (element-IsByte block 16 h)
                  λ checkpoint hc. hc

feedbacks_of_bytes :
    (blocks rest : List (List ℕ))
    → All (All IsByte) rest
    → Gives (All WireId) (feedbacks_of blocks rest)
unfolding feedbacks_of
feedbacks_of_bytes blocks [] h = tt
feedbacks_of_bytes blocks (block ∷ rest) h =
    skip-Gives (All WireId) (classify_block block) _ λ kind.
      elim-Gives (All WireId) (not (is_feedback kind) || ltb (length block) 20)
        (feedbacks_of blocks rest) _ (feedbacks_of_bytes blocks rest h.1)
        (bind-Gives WireId (All WireId) (read_feedback blocks block) _
          (read_feedback_bytes blocks block h.0)
          λ f hf.
            bind-Gives (All WireId) (All WireId) (feedbacks_of blocks rest) _
              (feedbacks_of_bytes blocks rest h.1) λ fs hs. (hf, hs))

of_blocks :
    (o : Outcome (List (List ℕ)))
    → Gives (All (All IsByte)) o
    → Gives
        (All WireId)
        (elim o [ invalid ↦ ok [] | fault ↦ fault | ok blocks ↦ feedbacks_of blocks blocks ])
of_blocks invalid h = tt
of_blocks fault h = tt
of_blocks (ok blocks) h = feedbacks_of_bytes blocks blocks h

-- What `parse_cast_feedbacks` reads from bytes has bytes for checkpoints.
pub parse_cast_feedbacks_bytes :
    (packet : List ℕ) (feedbacks : List CastFeedback)
    → All IsByte packet
    → parse_cast_feedbacks packet ≡ ok feedbacks
    → All WireId feedbacks
unfolding parse_cast_feedbacks validated_blocks
parse_cast_feedbacks_bytes packet feedbacks h e = subst (Gives (All WireId)) e (
    of_blocks (validated_blocks packet) (
      skip-Gives (All (All IsByte)) (reject_if (length packet == 0)) _
        λ _. blocks_from_bytes (suc (length packet)) packet 0 h))
