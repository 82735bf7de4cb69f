-- ===== src/Cast/Rtcp/Blocks/Single.antt =====
-- A datagram of one block.
use big_net_screen.Base.{
  ℕ, suc, ◌<◌, ◌≡◌, List, [], ◌∷◌, length, lt→ltb, le→ltb_false, suc_ne_zero, arith,
}
use big_net_screen.Base.Outcome.{ok}
use big_net_screen.Cast.Rtcp.Blocks.{block_at, blocks_from, validated_blocks}

first_round :
    (fuel : ℕ) (packet block : List ℕ)
    → 0 < length packet
    → block_at packet 0 ≡ ok (block, length packet)
    → blocks_from (suc (suc fuel)) packet 0 ≡ ok (block ∷ [])
unfolding blocks_from
first_round fuel packet block h e = rw (
  lt→ltb 0 (length packet) h,
  e,
  le→ltb_false (length packet) (length packet) (omega arith),
  blocks_from,
)

-- A datagram whose first block takes all of it is that block.
pub single_block :
    (packet block : List ℕ)
    → 0 < length packet
    → block_at packet 0 ≡ ok (block, length packet)
    → validated_blocks packet ≡ ok (block ∷ [])
unfolding validated_blocks
single_block [] block h e = absurd (omega arith)
single_block (x ∷ xs) block h e =
    rw (suc_ne_zero (length xs)) (first_round (length xs) (x ∷ xs) block h e)
