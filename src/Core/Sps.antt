-- ===== src/Core/Sps.antt =====
-- crates/nd-core/src/pipeline/decode_buffer.rs: the SPS in an encoder's output is rewritten so that
-- it says how many pictures a decoder must hold.
pub mod Reader
pub mod Writer
pub mod Scan
pub mod Escape
pub mod Declared
pub mod Units
mod Tests
use big_net_screen.Base.{ℕ, max, Bool, List, [], ◌∷◌, if◌then◌else◌}
use big_net_screen.Base.Outcome.{Outcome, ok, invalid, fault, ◌>>=◌}
use big_net_screen.Core.Sps.Reader.{BitReader}
use big_net_screen.Core.Sps.Writer.{BitWriter, empty, put, copy_from, put_ue, trailing_bits}
use big_net_screen.Core.Sps.Escape.{escape_from, unescape_from}
use big_net_screen.Core.Sps.Scan.{Survey, survey}

-- The bits up to the flag of the restriction; where there is no VUI, one that says nothing else.
unfoldable pub begin : List ℕ → Survey → Outcome BitWriter
unfolding put copy_from
begin rbsp s = do
  w ← copy_from rbsp 0 s.copied empty
  if s.has_vui then ok w else put 1 1 w >>= put 0 8

-- The restriction: its flag, motion vectors over the boundaries, the values that the standard
-- infers, no reordering, and the buffer.
unfoldable pub restrict : ℕ → BitWriter → Outcome BitWriter
unfolding put put_ue trailing_bits
restrict max_num_ref_frames w =
    put 1 1 w
    >>= put 1 1
    >>= put_ue 2
    >>= put_ue 1
    >>= put_ue 15
    >>= put_ue 15
    >>= put_ue 0
    >>= put_ue (max max_num_ref_frames 1)
    >>= trailing_bits

unfoldable pub declare : List ℕ → Survey → Outcome BitWriter
unfolding begin restrict
declare rbsp s = begin rbsp s >>= restrict s.max_num_ref_frames

unfoldable pub rewritten : ℕ → List ℕ → Survey × BitReader → Outcome (List ℕ)
unfolding escape_from declare
rewritten header rbsp (s, r) = do w ← declare rbsp s; ok (header ∷ escape_from 0 w.bytes)

unfoldable pub with_decode_buffer : List ℕ → Outcome (List ℕ)
unfolding unescape_from survey rewritten
with_decode_buffer [] = invalid
with_decode_buffer (header ∷ escaped) =
    let rbsp = unescape_from 0 escaped in
    survey (record { data_bytes = rbsp; at = 0 }) >>= rewritten header rbsp
