-- ===== src/Cast/Control/Wire/Tests.antt =====
-- Runs of wire.rs, and its round trip at a concrete message.
use big_net_screen.Base.{ℕ, ◌≡◌, refl, Option, some, none, List, [], ◌∷◌, ◌++◌}
use big_net_screen.Base.Text.{codes}
use big_net_screen.Cast.Control.Wire.{
  CastMessage, got, refused, too_large, text, source_id, to_frame, read_raw_message,
}
use big_net_screen.Cast.Control.Wire.RoundTrip.{read_raw_message-to_frame}

abbrev status : CastMessage
status = text (codes "receiver-0") source_id (codes "ns") (codes "{}")

-- A codec for messages from the receiver to this sender, of which only the payload differs.
abbrev text_of : Option (List ℕ) → List ℕ
text_of none = []
text_of (some bytes) = bytes

abbrev encode : CastMessage → List ℕ
encode msg = text_of msg.payload_utf8

abbrev decode : List ℕ → Option CastMessage
decode bytes = some (text (codes "receiver-0") source_id (codes "ns") bytes)

framed_run : to_frame encode status ≡ some (0 ∷ 0 ∷ 0 ∷ 2 ∷ codes "{}")
unfolding to_frame text
framed_run = refl

oversized_run : read_raw_message decode (255 ∷ 255 ∷ 255 ∷ 255 ∷ []) ≡ refused too_large
unfolding read_raw_message
oversized_run = refl

read_raw_message-to_frame_example :
    read_raw_message decode ((0 ∷ 0 ∷ 0 ∷ 2 ∷ codes "{}") ++ (1 ∷ [])) ≡ got status (1 ∷ [])
unfolding to_frame text
read_raw_message-to_frame_example =
    read_raw_message-to_frame encode decode status (0 ∷ 0 ∷ 0 ∷ 2 ∷ codes "{}") (1 ∷ []) refl refl
      refl
