-- ===== src/Wfd/Tables.antt =====
-- The resolution tables of crates/nd-wfd/src/rtsp/capabilities.rs, and the bits that name a mode.
pub mod Widest
pub mod Naming
use Prim.Native.Nat.{bit_and, bit_or}
use big_net_screen.Base.{
  ℕ, zero, suc, ◌+◌, ◌-◌, ◌*◌, ◌/◌, ◌%◌, ◌^◌, Bool, true, false, not, ◌&&◌, Option, none, some,
  List, [], ◌∷◌, ◌++◌, get_elem?, ltb, ◌==◌, if◌then◌else◌,
}

-- Width, height, frames a second and whether the mode is interlaced.
pub record Shape : Type 0 where
  pub width : ℕ
  pub height : ℕ
  pub fps : ℕ
  pub interlaced : Bool

abbrev pub shape : ℕ → ℕ → ℕ → Bool → Shape
shape width height fps interlaced = record {
  width = width;
  height = height;
  fps = fps;
  interlaced = interlaced;
}

pub data ResolutionTable : Type 0 where
  cea : ResolutionTable
  vesa : ResolutionTable
  handheld : ResolutionTable

pub record WfdMode : Type 0 where
  pub width : ℕ
  pub height : ℕ
  pub fps : ℕ
  pub interlaced : Bool
  pub table : ResolutionTable
  pub index : ℕ

abbrev pub cea_modes : List Shape
cea_modes =
    shape 640 480 60 false
    ∷ shape 720 480 60 false
    ∷ shape 720 480 60 true
    ∷ shape 720 576 50 false
    ∷ shape 720 576 50 true
    ∷ shape 1280 720 30 false
    ∷ shape 1280 720 60 false
    ∷ shape 1920 1080 30 false
    ∷ shape 1920 1080 60 false
    ∷ shape 1920 1080 60 true
    ∷ shape 1280 720 25 false
    ∷ shape 1280 720 50 false
    ∷ shape 1920 1080 25 false
    ∷ shape 1920 1080 50 false
    ∷ shape 1920 1080 50 true
    ∷ shape 1280 720 24 false
    ∷ shape 1920 1080 24 false
    ∷ []

abbrev pub vesa_modes : List Shape
vesa_modes =
    shape 800 600 30 false
    ∷ shape 800 600 60 false
    ∷ shape 1024 768 30 false
    ∷ shape 1024 768 60 false
    ∷ shape 1152 864 30 false
    ∷ shape 1152 864 60 false
    ∷ shape 1280 768 30 false
    ∷ shape 1280 768 60 false
    ∷ shape 1280 800 30 false
    ∷ shape 1280 800 60 false
    ∷ shape 1360 768 30 false
    ∷ shape 1360 768 60 false
    ∷ shape 1366 768 30 false
    ∷ shape 1366 768 60 false
    ∷ shape 1280 1024 30 false
    ∷ shape 1280 1024 60 false
    ∷ shape 1400 1050 30 false
    ∷ shape 1400 1050 60 false
    ∷ shape 1440 900 30 false
    ∷ shape 1440 900 60 false
    ∷ shape 1600 900 30 false
    ∷ shape 1600 900 60 false
    ∷ shape 1600 1200 30 false
    ∷ shape 1600 1200 60 false
    ∷ shape 1680 1024 30 false
    ∷ shape 1680 1024 60 false
    ∷ shape 1680 1050 30 false
    ∷ shape 1680 1050 60 false
    ∷ shape 1920 1200 30 false
    ∷ shape 1920 1200 60 false
    ∷ []

abbrev pub hh_modes : List Shape
hh_modes =
    shape 800 480 30 false
    ∷ shape 800 480 60 false
    ∷ shape 854 480 30 false
    ∷ shape 854 480 60 false
    ∷ shape 864 480 30 false
    ∷ shape 864 480 60 false
    ∷ shape 640 360 30 false
    ∷ shape 640 360 60 false
    ∷ shape 960 540 30 false
    ∷ shape 960 540 60 false
    ∷ shape 848 480 30 false
    ∷ shape 848 480 60 false
    ∷ []

-- The loop over a table, with the largest width and height so far.
unfoldable pub widest : List Shape → ℕ → ℕ → ℕ × ℕ
widest [] width height = (width, height)
widest (m ∷ ms) width height =
    widest ms (if ltb width m.width then m.width else width)
      (if ltb height m.height then m.height else height)

unfoldable pub max_source_size : ℕ × ℕ
unfolding widest
max_source_size =
    let (width, height) = widest cea_modes 0 0 in
    let (width', height') = widest vesa_modes width height in widest hh_modes width' height'

abbrev pub mode_of : ResolutionTable → ℕ → Shape → WfdMode
mode_of table index m = record {
  width = m.width;
  height = m.height;
  fps = m.fps;
  interlaced = m.interlaced;
  table = table;
  index = index;
}

-- The entries from `index` on whose bit is set.
unfoldable pub decode_from : ℕ → ℕ → ResolutionTable → List Shape → List WfdMode
decode_from index bitmap table [] = []
decode_from index bitmap table (m ∷ ms) =
    let rest = decode_from (index + 1) bitmap table ms in
    if not (bit_and bitmap (2 ^ index) == 0) then mode_of table (index % 2 ^ 8) m ∷ rest else rest

unfoldable pub decode_table : ℕ → ResolutionTable → List Shape → List WfdMode
unfolding decode_from
decode_table bitmap table modes = decode_from 0 bitmap table modes

-- The three bitmaps of `wfd_video_formats`.
pub record Bitmaps : Type 0 where
  pub cea_bits : ℕ
  pub vesa_bits : ℕ
  pub hh_bits : ℕ

-- The modes that `parse_video_formats` takes from the bitmaps.
unfoldable pub decode_all : Bitmaps → List WfdMode
unfolding decode_table
decode_all b =
    decode_table b.cea_bits cea cea_modes
    ++ (decode_table b.vesa_bits vesa vesa_modes ++ decode_table b.hh_bits handheld hh_modes)

abbrev pub modes_of : ResolutionTable → List Shape
modes_of cea = cea_modes
modes_of vesa = vesa_modes
modes_of handheld = hh_modes

-- `table as u8`
abbrev pub table_number : ResolutionTable → ℕ
table_number cea = 0
table_number vesa = 1
table_number handheld = 2

abbrev pub same_bool : Bool → Bool → Bool
same_bool true b = b
same_bool false b = not b

-- The derived equality of modes.
abbrev pub same_mode : WfdMode → WfdMode → Bool
same_mode a b =
    (a.width == b.width)
    && ((a.height == b.height)
        && ((a.fps == b.fps)
            && (same_bool a.interlaced b.interlaced
                && ((table_number a.table == table_number b.table) && (a.index == b.index)))))

abbrev pub table_numbered : ℕ → Option ResolutionTable
table_numbered n =
    if n == 0
    then some cea
    else if n == 1
    then some vesa
    else if n == 2
    then some handheld
    else none

unfoldable pub mode_from_native : ℕ → Option WfdMode
mode_from_native native = elim (table_numbered (bit_and native 0b111)) [
  | none ↦ none
  | some table ↦ elim (get_elem? (modes_of table) (native / 2 ^ 3)) [
    | none ↦ none
    | some m ↦ some (mode_of table (native / 2 ^ 3 % 2 ^ 8) m)
  ]
]

-- The fields of M4 that name the mode: the bitmaps and the native byte.
unfoldable pub m4_bitmaps : WfdMode → Bitmaps
m4_bitmaps mode =
    let bit = 2 ^ mode.index in
    elim mode.table [
      | cea ↦ record { cea_bits = bit; vesa_bits = 0; hh_bits = 0 }
      | vesa ↦ record { cea_bits = 0; vesa_bits = bit; hh_bits = 0 }
      | handheld ↦ record { cea_bits = 0; vesa_bits = 0; hh_bits = bit }
    ]

unfoldable pub m4_native : WfdMode → ℕ
m4_native mode = bit_or (mode.index * 2 ^ 3 % 2 ^ 8) (table_number mode.table)

-- Constrained Baseline, if the sink accepts it.
unfoldable pub m4_profile : ℕ → ℕ
m4_profile profile = if not (bit_and profile 0x01 == 0) then 0x01 else profile
