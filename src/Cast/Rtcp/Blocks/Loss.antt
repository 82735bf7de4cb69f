-- ===== src/Cast/Rtcp/Blocks/Loss.antt =====
-- A picture-loss request, and whom rtcp.rs takes it to be about.
use big_net_screen.Base.{
  ℕ, ◌^◌, ◌<◌, ◌≡◌, refl, ap₂, ◌∙◌, Bool, true, false, Bool-eq_of_iff, ◌&&◌, List, [], ◌∷◌, ◌++◌,
  ◌==◌, arith, if◌then◌else◌, ==_iff,
}
use big_net_screen.Base.Bytes.{be16, be32, be32-injective}
use big_net_screen.Base.Outcome.{ok, ◌>>=◌}
use big_net_screen.Cast.Rtcp.Blocks.{bytes_eq, block_at, picture_loss_for}

-- Version 2 and format 1, the type, two more words, and both SSRCs.
abbrev pub loss_block : ℕ → ℕ → List ℕ
loss_block receiver sender = 0x81 ∷ 206 ∷ be16 2 ++ (be32 receiver ++ be32 sender)

bytes_eq_refl : (xs : List ℕ) → bytes_eq xs xs ≡ true
unfolding bytes_eq
bytes_eq_refl [] = refl
bytes_eq_refl (x ∷ xs) = ground (arith, bytes_eq_refl xs)

four_equal :
    (a b c d e f g h : ℕ)
    → ((a == b) && ((c == d) && ((e == f) && ((g == h) && true)))) ≡ true
    → (a ≡ b) × (c ≡ d) × (e ≡ f) × (g ≡ h)
four_equal a b c d e f g h t = ground arith

bytes_eq-be32 : (a b : ℕ) → a < 2 ^ 32 → b < 2 ^ 32 → bytes_eq (be32 a) (be32 b) ≡ (a == b)
unfolding bytes_eq
bytes_eq-be32 a b ha hb =
    Bool-eq_of_iff (bytes_eq (be32 a) (be32 b)) (a == b)
      (λ t.
        let (p, q, r, s) = four_equal _ _ _ _ _ _ _ _ t in
        (==_iff a b).1 (be32-injective a b ha hb p q r s))
      (λ e. rw ((==_iff a b).0 e) (bytes_eq_refl (be32 b)))

block_at-loss :
    (receiver sender : ℕ)
    → block_at (loss_block receiver sender) 0 ≡ ok (loss_block receiver sender, 12)
unfolding block_at
block_at-loss receiver sender = refl

both_named :
    (p q : Bool)
    → ((if p then ok q else ok false) >>= λ hit. elim hit [ true ↦ ok true | false ↦ ok false ])
      ≡ ok (p && q)
both_named true true = refl
both_named true false = refl
both_named false q = refl

-- A picture-loss request is for the session exactly when it names both ends of it: the receiver
-- that sends it, and the stream that it is about.
pub picture_loss-loss_block :
    (receiver sender receiver_ssrc sender_ssrc : ℕ)
    → receiver < 2 ^ 32
    → sender < 2 ^ 32
    → receiver_ssrc < 2 ^ 32
    → sender_ssrc < 2 ^ 32
    → picture_loss_for (loss_block receiver sender) receiver_ssrc sender_ssrc
      ≡ ok ((receiver == receiver_ssrc) && (sender == sender_ssrc))
unfolding picture_loss_for
picture_loss-loss_block receiver sender receiver_ssrc sender_ssrc h1 h2 h3 h4 =
    both_named (bytes_eq (be32 receiver) (be32 receiver_ssrc))
      (bytes_eq (be32 sender) (be32 sender_ssrc))
    ∙ ap₂ (λ p q. ok (p && q)) (bytes_eq-be32 receiver receiver_ssrc h1 h3)
        (bytes_eq-be32 sender sender_ssrc h2 h4)
