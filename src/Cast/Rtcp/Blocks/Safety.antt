-- ===== src/Cast/Rtcp/Blocks/Safety.antt =====
-- The validation of rtcp.rs never panics, and what it promises of the blocks that it returns.
use Prim.Native.Nat.{bit_and}
use big_net_screen.Base.{
  ℕ, zero, suc, ◌+◌, ◌-◌, ◌*◌, ◌/◌, ◌^◌, ◌≤◌, ◌<◌, ◌≡◌, refl, sym, ap, ◌∙◌, Bool, true, false, not,
  ◌&&◌, ◌||◌, Option, none, some, List, length, slice, get_or-take, get_elem?, get_or, All, ltb,
  leb, ◌==◌, if◌then◌else◌, arith, length-take,
}
use big_net_screen.Base.Bytes.{of_be16}
use big_net_screen.Base.Outcome.{
  ok, reject_if, try, must, Safe, bind-Safe, map-Safe, elim-Safe, if-Safe, reject_if-Safe,
  must_element,
}
use big_net_screen.Cast.Rtcp.Blocks.{
  last?, minimum, strip_padding, lacks_losses, check_reports, checks, block_at, blocks_from,
  validated_blocks, is_cast,
}
use big_net_screen.Cast.Rtcp.Blocks.Reports.{IsSlice, try-slice, Reports, check_reports-Safe}

abbrev pub kind_of : List ℕ → ℕ
kind_of block = get_or block 1 0

abbrev pub count_of : List ℕ → ℕ
count_of block = bit_and (get_or block 0 0) 0x1f

-- What the code that reads a block relies on.
pub record IsBlock (block : List ℕ) : Type 0 where
  pub four : 4 ≤ length block
  pub feedback : kind_of block ≡ 206 → 12 ≤ length block
  pub reports : kind_of block ≡ 207 → (8 ≤ length block) × Reports block 8
  pub cast :
      kind_of block ≡ 206
      → count_of block ≡ 15
      → is_cast block ≡ true
      → 20 + get_or block 17 0 * 4 ≤ length block

-- The block without its padding has the head of the whole.
record IsHead (whole block : List ℕ) : Type 0 where
  four : 4 ≤ length block
  first : get_or block 0 0 ≡ get_or whole 0 0
  kind : get_or block 1 0 ≡ get_or whole 1 0

padding_kept :
    (len padding : ℕ)
    → 4 ≤ len
    → ((padding == 0) || ltb (len - 4) padding) ≡ false
    → 4 ≤ len - padding
padding_kept len padding h e = ground arith

strip_padding-Safe :
    (packet : List ℕ) (end first : ℕ) (whole : List ℕ)
    → 4 ≤ length whole
    → Safe (IsHead whole) (strip_padding packet end first whole)
unfolding strip_padding
strip_padding-Safe packet end first whole h =
    if-Safe (IsHead whole) (bit_and first 0x20 == 0) _ _
      (λ _. record { four = h; first = refl; kind = refl })
      (λ _.
        bind-Safe (λ _. not (end == length packet) ≡ false) (IsHead whole)
          (reject_if (not (end == length packet))) _ (reject_if-Safe _)
          (λ _ _.
            bind-Safe (λ _. Unit {0}) (IsHead whole) (try (last? whole)) _ (any (last? whole))
              (λ padding _.
                bind-Safe (λ _. ((padding == 0) || ltb (length whole - 4) padding) ≡ false)
                  (IsHead whole) (reject_if ((padding == 0) || ltb (length whole - 4) padding)) _
                  (reject_if-Safe _)
                  (λ _ fits.
                    let kept : 4 ≤ length whole - padding =
                      padding_kept (length whole) padding h fits in
                    record {
                      four = omega (arith, length-take (length whole - padding) whole);
                      first = get_or-take (length whole - padding) 0 whole 0 (omega arith);
                      kind = get_or-take (length whole - padding) 1 whole 0 (omega arith);
                    }))))
  where
    any : (o : Option ℕ) → Safe (λ _. Unit {0}) (try o)
    any none = tt
    any (some x) = tt

abbrev HasLosses : ℕ → ℕ → List ℕ → Bool → Type 0
HasLosses kind count block lacking =
    lacking ≡ false
    → kind ≡ 206
    → count ≡ 15
    → is_cast block ≡ true
    → 20 + get_or block 17 0 * 4 ≤ length block

test_on :
    (kind count : ℕ) (b : Bool)
    → ((kind == 206) && ((count == 15) && b)) ≡ false
    → kind ≡ 206
    → count ≡ 15
    → b ≡ true
    → ⊥
test_on kind count b h k c i = ground arith

not_true : true ≡ false → ⊥
not_true e = cc

enough : (len losses n : ℕ) → n ≡ losses → ltb len (20 + n * 4) ≡ false → 20 + losses * 4 ≤ len
enough len losses n e h = ground arith

lacks_losses-Safe :
    (kind count : ℕ) (block : List ℕ)
    → Safe (HasLosses kind count block) (lacks_losses kind count block)
unfolding lacks_losses
lacks_losses-Safe kind count block =
    let P = HasLosses kind count block in
    if-Safe P ((kind == 206) && ((count == 15) && is_cast block)) _ _
      (λ on.
        if-Safe P (ltb (length block) 20) _ _ (λ short bad k c i. absurd (not_true bad))
          (λ long.
            bind-Safe (λ n. n ≡ get_or block 17 0) P (must (get_elem? block 17)) _
              (must_element block 17 (ground arith))
              (λ n e lacking k c i. enough (length block) (get_or block 17 0) n e lacking)))
      (λ off lacking k c i. absurd (test_on kind count (is_cast block) off k c i))

-- What one round promises of the block and of where the next one begins.
pub record IsRound (packet : List ℕ) (offset : ℕ) (round : List ℕ × ℕ) : Type 0 where
  pub block : IsBlock round.0
  pub onward : offset + 4 ≤ round.1
  pub inside : round.1 ≤ length packet

big_enough :
    (kind count len : ℕ)
    → ltb len (minimum kind count) ≡ false
    → (kind ≡ 206 → 12 ≤ len) × (kind ≡ 207 → 8 ≤ len)
unfolding minimum
big_enough kind count len h = ground arith

not_207 : (kind : ℕ) → (kind == 207) ≡ false → kind ≡ 207 → ⊥
not_207 kind off e = ground arith

-- The checks on a block whose padding is gone.
checks-Safe :
    (packet block : List ℕ) (offset end kind count : ℕ)
    → get_or block 1 0 ≡ kind
    → bit_and (get_or block 0 0) 0x1f ≡ count
    → 4 ≤ length block
    → offset + 4 ≤ end
    → end ≤ length packet
    → Safe (IsRound packet offset) (checks block end kind count)
unfolding checks
checks-Safe packet block offset end kind count hk hc four onward inside =
    let P = IsRound packet offset in
    bind-Safe (λ _. ltb (length block) (minimum kind count) ≡ false) P
      (reject_if (ltb (length block) (minimum kind count))) _ (reject_if-Safe _)
      λ _ big.
        bind-Safe (λ _. Unit {0}) P
          (reject_if ((kind == 206) && ((count == 1) && not (length block == 12)))) _
          (map-Safe _ (λ _. Unit {0}) _ (λ _ _. tt) (reject_if-Safe _))
          λ _ _.
            bind-Safe (HasLosses kind count block) P (lacks_losses kind count block) _
              (lacks_losses-Safe kind count block)
              λ lacking has.
                bind-Safe (λ _. lacking ≡ false) P (reject_if lacking) _ (reject_if-Safe lacking)
                  λ _ holds.
                    let (twelve, eight) = big_enough kind count (length block) big in
                    bind-Safe (λ _. kind ≡ 207 → Reports block 8) P
                      (if kind == 207 then check_reports (length block) block 8 else ok tt) _
                      (if-Safe (λ _. kind ≡ 207 → Reports block 8) (kind == 207)
                        (check_reports (length block) block 8) (ok tt)
                        (λ e.
                          map-Safe (λ _. Reports block 8) (λ _. kind ≡ 207 → Reports block 8)
                            (check_reports (length block) block 8) (λ _ r _. r)
                            (check_reports-Safe (length block) block 8 (eight (ground arith))
                              (omega (arith, four))))
                        (λ off e. absurd (not_207 kind off e)))
                      λ _ reports. record {
                        block = record {
                          four = four;
                          feedback = λ e. twelve (sym hk ∙ e);
                          reports = λ e. (eight (sym hk ∙ e), reports (sym hk ∙ e));
                          cast = λ e c i. has holds (sym hk ∙ e) (sym hc ∙ c) i;
                        };
                        onward = onward;
                        inside = inside;
                      }

pub block_at-Safe :
    (packet : List ℕ) (offset : ℕ) → Safe (IsRound packet offset) (block_at packet offset)
unfolding block_at
block_at-Safe packet offset =
    let P = IsRound packet offset in
    bind-Safe (IsSlice packet offset 4) P (try (slice packet offset (offset + 4))) _
      (try-slice packet offset 4)
      λ header hh.
        let first = get_or header 0 0 in
        let kind = get_or header 1 0 in
        bind-Safe (λ _. Unit {0}) P
          (reject_if (not (first / 2 ^ 6 == 2) || not (leb 200 kind && leb kind 207))) _
          (map-Safe _ _ _ (λ _ _. tt) (reject_if-Safe _))
          λ _ _.
            let size = (of_be16 (get_or header 2 0) (get_or header 3 0) + 1) * 4 in
            bind-Safe (IsSlice packet offset size) P (try (slice packet offset (offset + size))) _
              (try-slice packet offset size)
              λ whole hw.
                bind-Safe (IsHead whole) P (strip_padding packet (offset + size) first whole) _
                  (strip_padding-Safe packet (offset + size) first whole (omega (arith, hw.sized)))
                  λ block hb.
                    let count = bit_and first 0x1f in
                    let same : get_or block 1 0 ≡ kind =
                      hb.kind ∙ hw.byte 1 (omega arith) ∙ sym (hh.byte 1 (omega arith)) in
                    checks-Safe packet block offset (offset + size) kind count same
                      (ap (λ (n : ℕ). bit_and n 0x1f)
                        (hb.first ∙ hw.byte 0 (omega arith) ∙ sym (hh.byte 0 (omega arith))))
                      hb.four (omega arith) hw.inside

blocks_from-Safe :
    (fuel : ℕ) (packet : List ℕ) (offset : ℕ)
    → offset ≤ length packet
    → length packet < offset + fuel
    → Safe (All IsBlock) (blocks_from fuel packet offset)
unfolding blocks_from
blocks_from-Safe zero packet offset low h = absurd (omega arith)
blocks_from-Safe (suc fuel) packet offset low h =
    elim-Safe (All IsBlock) (ltb offset (length packet)) _ _
      (λ more.
        bind-Safe (IsRound packet offset) (All IsBlock) (block_at packet offset) _
          (block_at-Safe packet offset)
          λ round r.
            bind-Safe (All IsBlock) (All IsBlock) (blocks_from fuel packet round.1) _
              (blocks_from-Safe fuel packet round.1 r.inside (omega (arith, r.onward)))
              λ rest hs. (r.block, hs))
      (λ _. tt)

-- On every datagram the validation ends, without an index out of range and inside its fuel. If it
-- accepts, each block is as long as the readers of its kind take it to be: four bytes always,
-- twelve for a payload-specific block, a whole row of reports for an XR block, and for a Cast
-- block all the losses that it announces.
pub validated_blocks-Safe : (packet : List ℕ) → Safe (All IsBlock) (validated_blocks packet)
unfolding validated_blocks
validated_blocks-Safe packet =
    bind-Safe (λ _. Unit {0}) (All IsBlock) (reject_if (length packet == 0)) _
      (map-Safe _ (λ _. Unit {0}) _ (λ _ _. tt) (reject_if-Safe _))
      λ _ _. blocks_from-Safe (suc (length packet)) packet 0 (omega arith) (omega arith)
