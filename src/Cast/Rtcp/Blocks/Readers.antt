-- ===== src/Cast/Rtcp/Blocks/Readers.antt =====
-- Classifying the validated blocks of rtcp.rs, and looking for a picture loss, never panics.
use Prim.Native.Nat.{bit_and}
use big_net_screen.Base.{
  ℕ, ◌+◌, ◌≤◌, ◌≡◌, refl, sym, ap, ◌∙◌, Bool, true, false, List, [], ◌∷◌, length, slice,
  slice_in_range, length-slice_lem, get_elem?, get_or, All, arith,
}
use big_net_screen.Base.Outcome.{
  Outcome, ok, invalid, fault, must, must_byte, Safe, Returns, bind-Returns, if-Returns,
  elim-Returns, Returns-ok,
}
use big_net_screen.Cast.Rtcp.Blocks.{
  ReceiverPacket, is_cast, is_loss, is_feedback, classify, classify_block, names, names_both,
  asks_picture, any_loss, validated_blocks, picture_loss_for,
}
use big_net_screen.Cast.Rtcp.Blocks.Safety.{kind_of, count_of, IsBlock, validated_blocks-Safe}

abbrev pub Any {ℓ} : {A : Type ℓ} → A → Type 0
Any a = Unit

abbrev pub Sized : ℕ → List ℕ → Type 0
Sized n bytes = length bytes ≡ n

pub must-slice :
    (xs : List ℕ) (start end size : ℕ)
    → end ≡ start + size
    → end ≤ length xs
    → Returns (Sized size) (must (slice xs start end))
must-slice xs start end size e h =
    rw (slice_in_range xs start end (omega arith) h)
      (length-slice_lem xs start end (omega arith) h ∙ omega arith)

-- What a kind says of the block that it was read from.
pub record Classified (block : List ℕ) (kind : ReceiverPacket) : Type 0 where
  pub loss : is_loss kind ≡ true → kind_of block ≡ 206
  pub feedback :
      is_feedback kind ≡ true
      → (kind_of block ≡ 206) × (count_of block ≡ 15) × (is_cast block ≡ true)

classify_kind :
    (kind count : ℕ) (cast : Bool)
    → (is_loss (classify kind count cast) ≡ true → kind ≡ 206)
      × (is_feedback (classify kind count cast) ≡ true
          → (kind ≡ 206) × (count ≡ 15) × (cast ≡ true))
unfolding classify
classify_kind kind count cast = ground arith

pub classify_block-Returns :
    (block : List ℕ) → IsBlock block → Returns (Classified block) (classify_block block)
unfolding classify_block
classify_block-Returns block v =
    bind-Returns (λ kind. kind ≡ kind_of block) (Classified block) (must (get_elem? block 1)) _
      (must_byte block 1 (omega (arith, v.four)))
      λ kind hk.
        bind-Returns (λ first. first ≡ get_or block 0 0) (Classified block)
          (must (get_elem? block 0)) _ (must_byte block 0 (omega (arith, v.four)))
          λ first hf.
            let (l, f) = classify_kind kind (bit_and first 0x1f) (is_cast block) in
            record {
              loss = λ e. sym hk ∙ l e;
              feedback = λ e.
                  let (a, b, c) = f e in
                  (sym hk ∙ a, ap (λ (n : ℕ). bit_and n 0x1f) (sym hf) ∙ b, c);
            }

pub names-Returns :
    (block : List ℕ) (start ssrc : ℕ)
    → start + 4 ≤ length block
    → Returns Any (names block start ssrc)
unfolding names
names-Returns block start ssrc h =
    bind-Returns (Sized 4) Any (must (slice block start (start + 4))) _
      (must-slice block start (start + 4) 4 refl h) λ _ _. tt

names_both-Returns :
    (block : List ℕ) (a b : ℕ) → 12 ≤ length block → Returns Any (names_both block a b)
unfolding names_both
names_both-Returns block a b h =
    bind-Returns Any Any (names block 4 a) _ (names-Returns block 4 a (omega arith)) λ from _.
      if-Returns Any from (names block 8 b) (ok false) (λ _. names-Returns block 8 b (omega arith))
        (λ _. tt)

asks_picture-Returns :
    (a b : ℕ) (block : List ℕ) → IsBlock block → Returns Any (asks_picture a b block)
unfolding asks_picture
asks_picture-Returns a b block v =
    bind-Returns (Classified block) Any (classify_block block) _ (classify_block-Returns block v)
      λ kind c.
        if-Returns Any (is_loss kind) (names_both block a b) (ok false)
          (λ e. names_both-Returns block a b (v.feedback (c.loss e))) (λ _. tt)

any_loss-Returns :
    (a b : ℕ) (blocks : List (List ℕ)) → All IsBlock blocks → Returns Any (any_loss a b blocks)
unfolding any_loss
any_loss-Returns a b [] v = tt
any_loss-Returns a b (block ∷ blocks) v =
    bind-Returns Any Any (asks_picture a b block) _ (asks_picture-Returns a b block v.0) λ hit _.
      elim-Returns Any hit (ok true) (any_loss a b blocks) (λ _. tt)
        (λ _. any_loss-Returns a b blocks v.1)

loss_of_outcome :
    (a b : ℕ) (o : Outcome (List (List ℕ)))
    → Safe (All IsBlock) o
    → Returns {A = Bool} Any
        (elim o [ invalid ↦ ok false | fault ↦ fault | ok blocks ↦ any_loss a b blocks ])
loss_of_outcome a b invalid v = tt
loss_of_outcome a b fault v = v
loss_of_outcome a b (ok blocks) v = any_loss-Returns a b blocks v

-- `picture_loss_for` answers on every datagram and for all SSRCs: it never panics and never hangs.
pub picture_loss_for_total :
    (packet : List ℕ) (receiver_ssrc sender_ssrc : ℕ)
    → (hit : Bool) × (picture_loss_for packet receiver_ssrc sender_ssrc ≡ ok hit)
unfolding picture_loss_for
picture_loss_for_total packet a b =
    let (hit, e, _) =
      Returns-ok {A = Bool} Any _
        (loss_of_outcome a b (validated_blocks packet) (validated_blocks-Safe packet)) in
    (hit, e)
