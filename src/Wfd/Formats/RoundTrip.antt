-- ===== src/Wfd/Formats/RoundTrip.antt =====
-- The mode that M4 names in capabilities.rs, read back from its text.
use big_net_screen.Base.{
  ℕ, suc, ◌^◌, ◌<◌, ◌≡◌, refl, ap, ◌∙◌, Bool, true, ◌&&◌, none, some, List, [], ◌∷◌, All, ltb,
  if-holds, arith,
}
use big_net_screen.Base.Text.{codes}
use big_net_screen.Base.Text.Numbers.{
  IsDigits, lower-IsDigits, upper-IsDigits, hex, hex-dark, hex-some, from_str_radix-hex,
}
use big_net_screen.Base.Text.Words.{split_whitespace, split_whitespace-append}
use big_net_screen.Wfd.Tables.{
  WfdMode, Bitmaps, decode_all, mode_from_native, m4_bitmaps, m4_native, m4_profile,
}
use big_net_screen.Wfd.Tables.Naming.{IsNamed, all_modes, all_pass, modes-IsNamed}
use big_net_screen.Wfd.Formats.{
  read_u8, read_u32, take_fields, parse_video_formats, hex_02, hex_08, m4_tail, ◌␣◌, m4_text,
  m4_video_formats,
}

hex-word :
    (digit : ℕ → ℕ) (is : IsDigits digit) (width n : ℕ) (rest : List ℕ)
    → split_whitespace (hex digit (suc width) n ␣ rest)
      ≡ hex digit (suc width) n ∷ split_whitespace rest
hex-word digit is width n rest =
    split_whitespace-append (hex digit (suc width) n) rest (hex-dark digit is (suc width) n)
      (hex-some digit is width n)

m4-words :
    (native profile level : ℕ) (b : Bitmaps)
    → split_whitespace (m4_text native profile level b)
      ≡ hex_02 native
        ∷ codes "00"
        ∷ hex_02 profile
        ∷ hex_02 level
        ∷ hex_08 b.cea_bits
        ∷ hex_08 b.vesa_bits
        ∷ hex_08 b.hh_bits
        ∷ split_whitespace m4_tail
m4-words native profile level b =
    hex-word _ lower-IsDigits 1 native _
    ∙ ap (λ ws. hex_02 native ∷ ws)
        (split_whitespace-append (codes "00") _ (refl, (refl, tt)) (λ e. cc)
          ∙ ap (λ ws. codes "00" ∷ ws)
              (hex-word _ lower-IsDigits 1 profile _
                ∙ ap (λ ws. hex_02 profile ∷ ws)
                    (hex-word _ lower-IsDigits 1 level _
                      ∙ ap (λ ws. hex_02 level ∷ ws)
                          (hex-word _ upper-IsDigits 7 b.cea_bits _
                            ∙ ap (λ ws. hex_08 b.cea_bits ∷ ws)
                                (hex-word _ upper-IsDigits 7 b.vesa_bits _
                                  ∙ ap (λ ws. hex_08 b.vesa_bits ∷ ws)
                                      (hex-word _ upper-IsDigits 7 b.hh_bits _))))))

read_u8-hex : (n : ℕ) → n < 2 ^ 8 → read_u8 (hex_02 n) ≡ some n
read_u8-hex n h = from_str_radix-hex _ lower-IsDigits (2 ^ 8) 1 n (omega (arith, h)) h

read_u32-hex : (n : ℕ) → n < 2 ^ 32 → read_u32 (hex_08 n) ≡ n
read_u32-hex n h =
    let e = from_str_radix-hex _ upper-IsDigits (2 ^ 32) 7 n (omega (arith, h)) h in rw e refl

-- The bitmaps have 32 bits.
abbrev AreWords : Bitmaps → Type 0
AreWords b = (b.cea_bits < 2 ^ 32) × (b.vesa_bits < 2 ^ 32) × (b.hh_bits < 2 ^ 32)

read-m4_text :
    (native profile level : ℕ) (b : Bitmaps)
    → native < 2 ^ 8
    → profile < 2 ^ 8
    → level < 2 ^ 8
    → AreWords b
    → parse_video_formats (m4_text native profile level b) ≡ record {
      video_formats = some (m4_text native profile level b);
      modes = decode_all b;
      profile = profile;
      level = level;
      audio_codecs = none;
      rtp_port = 0;
      native = mode_from_native native;
    }
unfolding parse_video_formats
read-m4_text native profile level b hn hp hl hb =
    ap (take_fields (m4_text native profile level b)) (m4-words native profile level b)
    ∙ rw
        (
          read_u8-hex native hn,
          read_u8-hex profile hp,
          read_u8-hex level hl,
          read_u32-hex b.cea_bits hb.0,
          read_u32-hex b.vesa_bits hb.1,
          read_u32-hex b.hh_bits hb.2,
        )
        refl

abbrev fits_test : WfdMode → Bool
fits_test mode =
    ltb (m4_native mode) (2 ^ 8)
    && (ltb (m4_bitmaps mode).cea_bits (2 ^ 32)
        && (ltb (m4_bitmaps mode).vesa_bits (2 ^ 32) && ltb (m4_bitmaps mode).hh_bits (2 ^ 32)))

all_fit : all_pass fits_test all_modes ≡ true
unfolding m4_native m4_bitmaps
all_fit = refl

both_ltb : (a n : ℕ) (b : Bool) → (ltb a n && b) ≡ true → (a < n) × (b ≡ true)
both_ltb a n b h = ground arith

last_ltb : (a n : ℕ) → ltb a n ≡ true → a < n
last_ltb a n h = ground arith

mode_fits :
    (mode : WfdMode) → fits_test mode ≡ true → (m4_native mode < 2 ^ 8) × AreWords (m4_bitmaps mode)
mode_fits mode h =
    let (a, h1) = both_ltb _ _ _ h in
    let (b, h2) = both_ltb _ _ _ h1 in
    let (c, h3) = both_ltb _ _ _ h2 in (a, (b, c, last_ltb _ _ h3))

m4_profile-bound : (profile : ℕ) → profile < 2 ^ 8 → m4_profile profile < 2 ^ 8
unfolding m4_profile
m4_profile-bound profile h = if-holds (λ p. p < 2 ^ 8) _ 0x01 profile (λ _. omega arith) (λ _. h)

-- The text of M4 for the mode is read as that mode alone, which is the native one too.
abbrev pub IsReadBack : ℕ → ℕ → WfdMode → Type 0
IsReadBack profile level mode = parse_video_formats (m4_video_formats mode profile level) ≡ record {
  video_formats = some (m4_video_formats mode profile level);
  modes = mode ∷ [];
  profile = m4_profile profile;
  level = level;
  audio_codecs = none;
  rtp_port = 0;
  native = some mode;
}

mode-IsReadBack :
    (profile level : ℕ) (mode : WfdMode)
    → profile < 2 ^ 8
    → level < 2 ^ 8
    → IsNamed mode
    → fits_test mode ≡ true
    → IsReadBack profile level mode
unfolding m4_video_formats
mode-IsReadBack profile level mode hp hl named h =
    let fits = mode_fits mode h in
    read-m4_text (m4_native mode) (m4_profile profile) level (m4_bitmaps mode) fits.0
      (m4_profile-bound profile hp) hl (fits.1)
    ∙ rw (named.0, named.1) refl

modes-read :
    (profile level : ℕ) (modes : List WfdMode)
    → profile < 2 ^ 8
    → level < 2 ^ 8
    → All IsNamed modes
    → all_pass fits_test modes ≡ true
    → All (IsReadBack profile level) modes
modes-read profile level [] hp hl named h = tt
modes-read profile level (m ∷ ms) hp hl named h =
    let (here, rest) = both_pass _ _ h in
    (
      mode-IsReadBack profile level m hp hl named.0 here,
      modes-read profile level ms hp hl named.1 rest,
    )
  where
    both_pass : (a b : Bool) → (a && b) ≡ true → (a ≡ true) × (b ≡ true)
    both_pass a b h = ground arith

-- Whatever mode of the tables is selected, the text of M4 is read as that mode and no other, in its
-- bitmaps and as the native one, with the level, and with the profile that M4 gives.
pub modes-IsReadBack :
    (profile level : ℕ) → profile < 2 ^ 8 → level < 2 ^ 8 → All (IsReadBack profile level) all_modes
modes-IsReadBack profile level hp hl =
    modes-read profile level all_modes hp hl modes-IsNamed all_fit
