-- ===== src/Core/Sps/Tests.antt =====
-- Runs of decode_buffer.rs, and its theorems at concrete bytes.
use big_net_screen.Base.{ℕ, ◌≡◌, refl, none, List, [], ◌∷◌, ◌++◌}
use big_net_screen.Base.Outcome.{ok, invalid, Safe, Returns}
use big_net_screen.Core.Sps.{with_decode_buffer}
use big_net_screen.Core.Sps.Escape.{escape, escape_from}
use big_net_screen.Core.Sps.Declared.{Settled, with_decode_buffer-Settled}
use big_net_screen.Core.Sps.Units.{answer, rewrite_access_unit, start_codes}
use big_net_screen.Core.Sps.Units.Rendered.{Replaced}
use big_net_screen.Core.Sps.Units.Probe.{declared, Remembers, probe-Replaced}

-- Constrained baseline, one reference picture, no VUI.
abbrev payload : List ℕ
payload = 0x42 ∷ 0x00 ∷ 0x1e ∷ 0xda ∷ 0x79 ∷ []

-- The VUI that is added declares the restriction, with a buffer of one picture.
abbrev declaring : List ℕ
declaring = 0x42 ∷ 0x00 ∷ 0x1e ∷ 0xda ∷ 0x7a ∷ 0x01 ∷ 0xb4 ∷ 0x10 ∷ 0x08 ∷ 0x54 ∷ []

sps_run : with_decode_buffer (0x67 ∷ payload) ≡ ok (0x67 ∷ declaring)
unfolding with_decode_buffer
sps_run = refl

second_run : with_decode_buffer (0x67 ∷ declaring) ≡ invalid
unfolding with_decode_buffer
second_run = refl

with_decode_buffer-Settled_example :
    Safe (Settled 0x67 payload) (with_decode_buffer (0x67 ∷ payload))
with_decode_buffer-Settled_example = with_decode_buffer-Settled 0x67 payload

escape_run : escape (0 ∷ 0 ∷ 1 ∷ 0 ∷ 0 ∷ 3 ∷ []) ≡ 0 ∷ 0 ∷ 3 ∷ 1 ∷ 0 ∷ 0 ∷ 3 ∷ 3 ∷ []
unfolding escape_from
escape_run = refl

-- An SPS, then a slice.
abbrev access_unit : List ℕ
access_unit = 0 ∷ 0 ∷ 0 ∷ 1 ∷ 0x67 ∷ payload ++ (0 ∷ 0 ∷ 1 ∷ 0x65 ∷ 0x88 ∷ [])

starts_run : start_codes access_unit ≡ ok ((0, 4) ∷ (10, 13) ∷ [])
unfolding start_codes
starts_run = refl

probe-Replaced_example :
    Returns
      (Replaced answer declared Remembers access_unit)
      (rewrite_access_unit answer access_unit none)
probe-Replaced_example = probe-Replaced access_unit none tt
