-- ===== src/Core/Sps/Scan.antt =====
-- What `with_decode_buffer` of decode_buffer.rs reads of an SPS.
pub mod Local
pub mod Again
use big_net_screen.Base.{
  ℕ, zero, suc, ◌+◌, ◌*◌, ◌%◌, ◌^◌, Bool, true, false, not, ◌||◌, List, [], ◌∷◌, ◌==◌,
  if◌then◌else◌,
}
use big_net_screen.Base.Int.{ℤ}
use big_net_screen.Base.Outcome.{ok}
use big_net_screen.Core.Sps.Reader.{
  Read, ◌>>=◌, ◌>>◌, pure, give_up, flag, read_from, read, skip, ue, se,
}

-- A number that is read and not used.
unfoldable pub pass_ue : Read (Unit {0})
unfolding ◌>>=◌ ue
pass_ue = do _ ← ue; pure tt

unfoldable pub pass_se : Read (Unit {0})
unfolding ◌>>=◌ se
pass_se = do _ ← se; pure tt

unfoldable pub repeat : ℕ → Read (Unit {0}) → Read (Unit {0})
unfolding ◌>>◌
repeat zero step = pure tt
repeat (suc n) step = step >> repeat n step

abbrev pub when : Bool → Read (Unit {0}) → Read (Unit {0})
when b step = if b then step else pure tt

abbrev pub any : List ℕ → ℕ → Bool
any [] n = false
any (x ∷ xs) n = (x == n) || any xs n

-- The profiles whose SPS says more of the colours.
abbrev pub has_chroma : ℕ → Bool
has_chroma = any (100 ∷ 110 ∷ 122 ∷ 244 ∷ 44 ∷ 83 ∷ 86 ∷ 118 ∷ 128 ∷ 138 ∷ 139 ∷ 134 ∷ 135 ∷ [])

unfoldable pub chroma : Read (Unit {0})
unfolding ◌>>=◌ ◌>>◌ ue skip pass_ue flag
chroma = do
  format ← ue
  when (format == 3) (skip 1)
  pass_ue
  pass_ue
  skip 1
  scaling ← flag
  if scaling then give_up else pure tt

unfoldable pub pic_order : Read (Unit {0})
unfolding ◌>>=◌ ◌>>◌ ue skip pass_ue pass_se repeat
pic_order = do
  kind ← ue
  if kind == 0
      then pass_ue
      else if kind == 1
      then (skip 1 >> pass_se >> pass_se >> (ue >>= λ n. repeat n pass_se))
      else pure tt

-- Up to the flag of the VUI; it returns `max_num_ref_frames`.
unfoldable pub head : Read ℕ
unfolding ◌>>=◌ ◌>>◌ ue skip pass_ue read_from chroma pic_order flag repeat
head = do
  profile_idc ← read 8
  skip 16
  pass_ue
  when (has_chroma profile_idc) chroma
  pass_ue
  pic_order
  max_num_ref_frames ← ue
  skip 1
  pass_ue
  pass_ue
  frame_mbs_only ← flag
  when (not frame_mbs_only) (skip 1)
  skip 1
  cropped ← flag
  when cropped (repeat 4 pass_ue)
  pure max_num_ref_frames

unfoldable pub skip_hrd : Read (Unit {0})
unfolding ◌>>=◌ ◌>>◌ ue skip pass_ue repeat
skip_hrd = do
  last ← ue
  skip 8
  repeat ((last + 1) % 2 ^ 32) (pass_ue >> pass_ue >> skip 1)
  skip 20

unfoldable pub aspect_ratio : Read (Unit {0})
unfolding ◌>>=◌ read_from skip
aspect_ratio = do idc ← read 8; when (idc == 255) (skip 32)

unfoldable pub video_signal : Read (Unit {0})
unfolding ◌>>=◌ ◌>>◌ skip flag
video_signal = do skip 4; described ← flag; when described (skip 24)

-- The VUI, from after its flag up to the flag of the restriction.
unfoldable pub vui : Read (Unit {0})
unfolding ◌>>=◌ ◌>>◌ skip flag pass_ue aspect_ratio video_signal skip_hrd
vui = do
  ratio ← flag
  when ratio aspect_ratio
  overscan ← flag
  when overscan (skip 1)
  signal ← flag
  when signal video_signal
  location ← flag
  when location (pass_ue >> pass_ue)
  timing ← flag
  when timing (skip 65)
  nal_hrd ← flag
  when nal_hrd skip_hrd
  vcl_hrd ← flag
  when vcl_hrd skip_hrd
  when (nal_hrd || vcl_hrd) (skip 1)
  skip 1

unfoldable pub position : Read ℕ
position r = ok (r.at, r)

pub record Survey : Type 0 where
  pub max_num_ref_frames : ℕ
  pub has_vui : Bool
  pub copied : ℕ

-- An SPS that declares the restriction is left alone.
abbrev pub unless_declared : ℕ → ℕ → Bool → Read Survey
unless_declared refs at true = give_up
unless_declared refs at false =
    pure (record { max_num_ref_frames = refs; has_vui = true; copied = at })

-- At the flag of the restriction.
unfoldable pub after_vui : ℕ → Read Survey
unfolding ◌>>=◌ flag position
after_vui refs = do
  restriction_at ← position
  declared ← flag
  unless_declared refs restriction_at declared

unfoldable pub by_presence : ℕ → ℕ → Bool → Read Survey
unfolding ◌>>◌ vui after_vui
by_presence refs at true = vui >> after_vui refs
by_presence refs at false =
    pure (record { max_num_ref_frames = refs; has_vui = false; copied = at })

-- At the flag of the VUI.
unfoldable pub after_head : ℕ → Read Survey
unfolding ◌>>=◌ flag position by_presence
after_head refs = do vui_flag_at ← position; present ← flag; by_presence refs vui_flag_at present

-- What is read before anything is written: the bits that are copied end where the VUI's flag, or
-- the restriction's, stands.
unfoldable pub survey : Read Survey
unfolding ◌>>=◌ head after_head
survey = head >>= after_head
