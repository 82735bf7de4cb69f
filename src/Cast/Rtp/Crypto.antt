-- ===== src/Cast/Rtp/Crypto.antt =====
-- The encryption of rtp.rs: it undoes itself, and frames never share a nonce.
use big_net_screen.Base.{
  suc, sym, ◌∙◌, ℕ, ◌+◌, ◌^◌, ◌<◌, ◌≡◌, refl, ap, ap₂, List, [], ◌∷◌, length, All, arith,
}
use big_net_screen.Base.Bits.{bit_xor_twice}
use big_net_screen.Base.Bytes.{IsByte, be32-injective}
use big_net_screen.Cast.Rtp.{nonce_block, xor_with, nonce, apply_keystream, encrypt_frame}

module _ (keystream : List ℕ → List ℕ → ℕ → ℕ) where
  apply_keystream_twice :
      (bytes : ((key iv : List ℕ) (position : ℕ) → IsByte (keystream key iv position)))
      (key iv : List ℕ) (position : ℕ) (text : List ℕ)
      → All IsByte text
      → apply_keystream keystream key iv position (apply_keystream keystream key iv position text)
        ≡ text
  unfolding apply_keystream
  apply_keystream_twice bytes key iv position [] h = refl
  apply_keystream_twice bytes key iv position (b ∷ bs) h =
      ap₂ ◌∷◌ (bit_xor_twice b (keystream key iv position) h.0 (bytes key iv position))
        (apply_keystream_twice bytes key iv (position + 1) bs h.1)

  length-apply_keystream :
      (key iv : List ℕ) (position : ℕ) (text : List ℕ)
      → length (apply_keystream keystream key iv position text) ≡ length text
  unfolding apply_keystream
  length-apply_keystream key iv position [] = refl
  length-apply_keystream key iv position (b ∷ bs) =
      ap suc (length-apply_keystream key iv (position + 1) bs)

  -- If the keystream is made of bytes, encrypting an encrypted frame under the same key, mask and
  -- frame id gives the frame back, and encryption keeps the length.
  pub encrypt_frame_twice :
      (bytes : ((key iv : List ℕ) (position : ℕ) → IsByte (keystream key iv position)))
      (key iv_mask : List ℕ) (frame_id : ℕ) (frame : List ℕ)
      → All IsByte frame
      → (encrypt_frame keystream key iv_mask frame_id
            (encrypt_frame keystream key iv_mask frame_id frame)
          ≡ frame)
        × (length (encrypt_frame keystream key iv_mask frame_id frame) ≡ length frame)
  unfolding encrypt_frame
  encrypt_frame_twice bytes key iv_mask frame_id frame h = (
    apply_keystream_twice bytes key (nonce iv_mask frame_id) 0 frame h,
    length-apply_keystream key (nonce iv_mask frame_id) 0 frame,
  )

xor_with_twice :
    (xs masks : List ℕ) → All IsByte xs → All IsByte masks → xor_with (xor_with xs masks) masks ≡ xs
unfolding xor_with
xor_with_twice [] masks hx hm = refl
xor_with_twice (x ∷ xs) [] hx hm = refl
xor_with_twice (x ∷ xs) (m ∷ masks) hx hm =
    ap₂ ◌∷◌ (bit_xor_twice x m hx.0 hm.0) (xor_with_twice xs masks hx.1 hm.1)

nonce_block-IsByte : (frame_id : ℕ) → All IsByte (nonce_block frame_id)
unfolding nonce_block
nonce_block-IsByte frame_id = omega arith

nonce_block_injective : (a b : ℕ) → a < 2 ^ 32 → b < 2 ^ 32 → nonce_block a ≡ nonce_block b → a ≡ b
unfolding nonce_block
nonce_block_injective a b ha hb e = be32-injective a b ha hb (cc) (cc) (cc) (cc)

-- Two frames of one stream never meet the same nonce: under any mask of bytes, equal nonces come
-- from equal frame ids of 32 bits.
pub nonce_injective :
    (iv_mask : List ℕ) (a b : ℕ)
    → All IsByte iv_mask
    → a < 2 ^ 32
    → b < 2 ^ 32
    → nonce iv_mask a ≡ nonce iv_mask b
    → a ≡ b
unfolding nonce
nonce_injective iv_mask a b hm ha hb e = nonce_block_injective a b ha hb same
  where
    same : nonce_block a ≡ nonce_block b
    same =
        sym (xor_with_twice (nonce_block a) iv_mask (nonce_block-IsByte a) hm)
        ∙ ap (λ (bytes : List ℕ). xor_with bytes iv_mask) e
        ∙ xor_with_twice (nonce_block b) iv_mask (nonce_block-IsByte b) hm
