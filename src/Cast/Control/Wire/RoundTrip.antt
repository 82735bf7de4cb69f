-- ===== src/Cast/Control/Wire/RoundTrip.antt =====
-- What wire.rs frames, it reads back.
use big_net_screen.Base.{
  ℕ, ◌≤◌, ◌≡◌, refl, ap, ap₂, ◌∙◌, Bool, true, false, Option, none, some, List, ◌++◌, length,
  length-append, take-append, drop-append, leb, leb→le, ltb, le→ltb_false, if◌then◌else◌, arith,
}
use big_net_screen.Base.Bytes.{be32, of_be32-be32}
use big_net_screen.Cast.Control.Wire.{
  CastMessage, got, max_message_bytes, bad_message, to_frame, checked, read_body, read_raw_message,
}

module _ (encode : CastMessage → List ℕ) (decode : List ℕ → Option CastMessage) where
  framed :
      (msg : CastMessage) (frame : List ℕ)
      → to_frame encode msg ≡ some frame
      → (length (encode msg) ≤ max_message_bytes)
        × (frame ≡ be32 (length (encode msg)) ++ encode msg)
  unfolding to_frame
  framed msg frame e = by_test (leb (length (encode msg)) max_message_bytes) refl e
    where
      by_test :
          (b : Bool)
          → leb (length (encode msg)) max_message_bytes ≡ b
          → (if b then some (be32 (length (encode msg)) ++ encode msg) else none) ≡ some frame
          → (length (encode msg) ≤ max_message_bytes)
            × (frame ≡ be32 (length (encode msg)) ++ encode msg)
      by_test true t e = (leb→le _ _ t, cc)
      by_test false t e = cc

  body_read :
      (msg : CastMessage) (rest : List ℕ)
      → length (encode msg) ≤ max_message_bytes
      → decode (encode msg) ≡ some msg
      → bad_message msg ≡ false
      → read_body decode (length (encode msg)) (encode msg ++ rest) ≡ got msg rest
  body_read msg rest le d ok =
      let a = le→ltb_false max_message_bytes (length (encode msg)) le in
      let b : ltb (length (encode msg ++ rest)) (length (encode msg)) ≡ false =
        le→ltb_false _ _ (omega (arith, length-append (encode msg) rest)) in
      rw (a, b)
        (ap₂ (checked decode) (ap decode (take-append (encode msg) rest) ∙ d)
            (drop-append (encode msg) rest)
          ∙ rw ok)

  -- If the decoder undoes the encoder, the frame of a message with a good envelope is read back as that message, wherever it stands on the stream, and what follows it is left there.
  pub read_raw_message-to_frame :
      (msg : CastMessage) (frame rest : List ℕ)
      → decode (encode msg) ≡ some msg
      → bad_message msg ≡ false
      → to_frame encode msg ≡ some frame
      → read_raw_message decode (frame ++ rest) ≡ got msg rest
  unfolding read_raw_message
  read_raw_message-to_frame msg frame rest d ok e =
      let (le, f) = framed msg frame e in
      ap (λ fr. read_raw_message decode (fr ++ rest)) f
      ∙ ap (λ (n : ℕ). read_body decode n (encode msg ++ rest))
          (of_be32-be32 (length (encode msg)) (omega arith))
      ∙ body_read msg rest le d ok
