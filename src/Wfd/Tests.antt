-- ===== src/Wfd/Tests.antt =====
-- Runs of the choice of a mode in capabilities.rs, and its theorems at concrete sinks.
use big_net_screen.Base.{◌≡◌, refl, ◌⊎◌, inl, inr, false, none, some, [], ◌∷◌, All, arith}
use big_net_screen.Wfd.Tables.{
  WfdMode, Bitmaps, cea, vesa, decode_all, max_source_size, mode_from_native,
}
use big_net_screen.Wfd.Tables.Widest.{FitsIn, modes_fit}
use big_net_screen.Wfd.Choice.{SinkCaps, preferred_mode, native_fits}
use big_net_screen.Wfd.Choice.Best.{
  IsNoCloser, IsSuitable, preferred_mode-cases, preferred_mode-closest,
}

abbrev full_hd : WfdMode
full_hd = record {
  width = 1920;
  height = 1080;
  fps = 60;
  interlaced = false;
  table = cea;
  index = 8;
}

abbrev wuxga : WfdMode
wuxga = record {
  width = 1920;
  height = 1200;
  fps = 30;
  interlaced = false;
  table = vesa;
  index = 28;
}

abbrev projector : SinkCaps
projector = record {
  video_formats = none;
  modes = full_hd ∷ wuxga ∷ [];
  profile = 0x01;
  level = 0x10;
  audio_codecs = none;
  rtp_port = 19002;
  native = none;
}

abbrev projector_bits : Bitmaps
projector_bits = record { cea_bits = 0x100; vesa_bits = 0x10000000; hh_bits = 0 }

projector_modes : decode_all projector_bits ≡ projector.modes
unfolding decode_all
projector_modes = refl

-- The wider aspect wins over the larger area on a 16:9 screen.
wide_screen : preferred_mode (2560, 1440) (1920, 1200) 60 projector ≡ some full_hd
unfolding preferred_mode
wide_screen = refl

native_wins :
    preferred_mode (2560, 1440) (1920, 1200) 60 (record projector { native = some wuxga })
    ≡ some wuxga
unfolding preferred_mode
native_wins = refl

native_byte : mode_from_native 0x40 ≡ some full_hd
unfolding mode_from_native
native_byte = refl

modes_fit_example :
    All (FitsIn max_source_size) (decode_all projector_bits) × (max_source_size ≡ (1920, 1200))
modes_fit_example = modes_fit projector_bits

preferred_mode-cases_example :
    ((preferred_mode (2560, 1440) (1280, 720) 60 projector ≡ none)
      × ((m : WfdMode) → IsSuitable (1280, 720) 60 projector.modes m → ⊥))
    ⊎ ((m : WfdMode) × (preferred_mode (2560, 1440) (1280, 720) 60 projector ≡ some m)
        × IsSuitable (1280, 720) 60 projector.modes m)
preferred_mode-cases_example = preferred_mode-cases (2560, 1440) (1280, 720) 60 projector

wuxga-IsSuitable : IsSuitable (1920, 1200) 60 projector.modes wuxga
wuxga-IsSuitable = record {
  offered = inr (inl refl);
  progressive = refl;
  fast = omega arith;
  narrow = omega arith;
  short = omega arith;
}

preferred_mode-closest_example : IsNoCloser (2560, 1440) full_hd wuxga
unfolding native_fits
preferred_mode-closest_example =
    preferred_mode-closest (2560, 1440) (1920, 1200) 60 projector full_hd wuxga (omega arith)
      (omega arith) refl wide_screen wuxga-IsSuitable
