-- ===== src/Cast/Sender/Gate/Tests.antt =====
-- Runs of the gate of sender.rs, and its theorems at concrete frames.
use big_net_screen.Base.{◌≡◌, refl, true, false, List, [], ◌∷◌}
use big_net_screen.Cast.Sender.Gate.{Offered, new, offer}
use big_net_screen.Cast.Sender.Gate.Decoding.{decodes, video_decodes}

abbrev delta : Offered
delta = record { is_key = false; has_room = true }

abbrev key : Offered
key = record { is_key = true; has_room = true }

abbrev blocked : Offered
blocked = record { is_key = false; has_room = false }

abbrev clip : List Offered
clip = delta ∷ key ∷ delta ∷ blocked ∷ delta ∷ key ∷ delta ∷ []

clip_run :
    (offer clip (new true)).0
    ≡ record { is_key = false; sent = false }
      ∷ record { is_key = true; sent = true }
      ∷ record { is_key = false; sent = true }
      ∷ record { is_key = false; sent = false }
      ∷ record { is_key = false; sent = false }
      ∷ record { is_key = true; sent = true }
      ∷ record { is_key = false; sent = true }
      ∷ []
unfolding offer new
clip_run = refl

-- Audio goes on with the next frame.
audio_run :
    (offer (delta ∷ blocked ∷ delta ∷ []) (new false)).0
    ≡ record { is_key = false; sent = true }
      ∷ record { is_key = false; sent = false }
      ∷ record { is_key = false; sent = true }
      ∷ []
unfolding offer new
audio_run = refl

video_decodes_example : decodes false (offer clip (new true)).0 ≡ true
video_decodes_example = video_decodes clip
