-- ===== src/Wfd/Formats.antt =====
-- The text of M3 and M4 in crates/nd-wfd/src/rtsp/capabilities.rs. Text is ASCII.
pub mod RoundTrip
pub mod Latest
mod Tests
use Prim.Native.Nat.{bit_and}
use big_net_screen.Base.{
  ℕ, ◌^◌, Bool, true, false, Option, none, some, List, [], ◌∷◌, ◌++◌, if◌then◌else◌,
}
use big_net_screen.Base.Text.{codes, same_bytes, trim, split_once}
use big_net_screen.Base.Text.Numbers.{from_str_radix, lower_digit, upper_digit, hex}
use big_net_screen.Base.Text.Words.{split_whitespace, lines}
use big_net_screen.Wfd.Tables.{
  WfdMode, Bitmaps, decode_all, mode_from_native, m4_bitmaps, m4_native, m4_profile,
}
use big_net_screen.Wfd.Choice.{SinkCaps}

abbrev pub default : SinkCaps
default = record {
  video_formats = none;
  modes = [];
  profile = 0;
  level = 0;
  audio_codecs = none;
  rtp_port = 0;
  native = none;
}

abbrev pub unwrap_or : ℕ → Option ℕ → ℕ
unwrap_or d none = d
unwrap_or d (some n) = n

abbrev pub read_u8 : List ℕ → Option ℕ
read_u8 text = from_str_radix 16 (2 ^ 8) text

abbrev pub read_u32 : List ℕ → ℕ
read_u32 text = unwrap_or 0 (from_str_radix 16 (2 ^ 32) text)

abbrev pub native_of : Option ℕ → Option WfdMode
native_of none = none
native_of (some native) = mode_from_native native

-- Seven fields at least, of which the second is not read.
abbrev pub take_fields : List ℕ → List (List ℕ) → SinkCaps
take_fields value (native ∷ _ ∷ profile ∷ level ∷ cea ∷ vesa ∷ hh ∷ _) = record {
  video_formats = some value;
  modes =
      decode_all
        (record { cea_bits = read_u32 cea; vesa_bits = read_u32 vesa; hh_bits = read_u32 hh });
  profile = unwrap_or 0x01 (read_u8 profile);
  level = unwrap_or 0x02 (read_u8 level);
  audio_codecs = none;
  rtp_port = 0;
  native = native_of (read_u8 native);
}
take_fields value _ = record default { video_formats = some value }

unfoldable pub parse_video_formats : List ℕ → SinkCaps
unfolding split_whitespace from_str_radix decode_all mode_from_native
parse_video_formats value = take_fields value (split_whitespace value)

-- Words of two and of eight hexadecimal digits.
abbrev pub hex_02 : ℕ → List ℕ
hex_02 n = hex lower_digit 2 n

abbrev pub hex_08 : ℕ → List ℕ
hex_08 n = hex upper_digit 8 n

abbrev pub m4_tail : List ℕ
m4_tail = codes "00 0000 0000 00 none none"

infixr 5 ◌␣◌
abbrev pub ◌␣◌ : List ℕ → List ℕ → List ℕ
a ␣ b = a ++ (b' ' ∷ b)

abbrev pub m4_text : ℕ → ℕ → ℕ → Bitmaps → List ℕ
m4_text native profile level b =
    hex_02 native
    ␣ codes "00"
    ␣ hex_02 profile
    ␣ hex_02 level
    ␣ hex_08 b.cea_bits
    ␣ hex_08 b.vesa_bits
    ␣ hex_08 b.hh_bits
    ␣ m4_tail

unfoldable pub m4_video_formats : WfdMode → ℕ → ℕ → List ℕ
unfolding hex m4_bitmaps m4_native m4_profile
m4_video_formats mode profile level =
    m4_text (m4_native mode) (m4_profile profile) level (m4_bitmaps mode)

abbrev pub second : List (List ℕ) → Option (List ℕ)
second (_ ∷ word ∷ _) = some word
second _ = none

abbrev pub port_word : Option (List ℕ) → Option ℕ
port_word none = none
port_word (some word) = from_str_radix 10 (2 ^ 16) word

unfoldable pub port_of : List ℕ → Option ℕ
unfolding split_whitespace from_str_radix
port_of value = port_word (second (split_whitespace value))

-- All but the audio codecs and the port come from the new value.
abbrev pub with_formats : SinkCaps → SinkCaps → SinkCaps
with_formats caps new = record new { audio_codecs = caps.audio_codecs; rtp_port = caps.rtp_port }

unfoldable pub take_value : SinkCaps → List ℕ → List ℕ → SinkCaps
unfolding parse_video_formats port_of
take_value caps key value =
    if same_bytes key (codes "wfd_video_formats")
    then with_formats caps (parse_video_formats value)
    else if same_bytes key (codes "wfd_audio_codecs")
    then record caps { audio_codecs = some value }
    else if same_bytes key (codes "wfd_client_rtp_ports")
    then record caps { rtp_port = unwrap_or caps.rtp_port (port_of value) }
    else caps

abbrev pub take_pair : SinkCaps → Option (List ℕ × List ℕ) → SinkCaps
take_pair caps none = caps
take_pair caps (some (key, value)) = take_value caps (trim key) (trim value)

unfoldable pub take_lines : SinkCaps → List (List ℕ) → SinkCaps
unfolding take_value
take_lines caps [] = caps
take_lines caps (line ∷ more) = take_lines (take_pair caps (split_once b':' line)) more

unfoldable pub parse_caps : List ℕ → SinkCaps
unfolding take_lines lines
parse_caps body = take_lines default (lines body)
