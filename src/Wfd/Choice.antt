-- ===== src/Wfd/Choice.antt =====
-- `SinkCaps` of crates/nd-wfd/src/rtsp/capabilities.rs: the mode that a session asks a sink for.
pub mod Selection
pub mod Best
use big_net_screen.Base.{
  ℕ, ◌+◌, ◌-◌, ◌*◌, ◌/◌, ◌≤◌, Bool, true, false, not, ◌&&◌, ◌||◌, Option, none, some, List, [], ◌∷◌,
  ltb, leb, ◌==◌, if◌then◌else◌,
}
use big_net_screen.Wfd.Tables.{WfdMode, same_mode}

-- The choice reads the modes and the native one.
pub record SinkCaps : Type 0 where
  pub video_formats : Option (List ℕ)
  pub modes : List WfdMode
  pub profile : ℕ
  pub level : ℕ
  pub audio_codecs : Option (List ℕ)
  pub rtp_port : ℕ
  pub native : Option WfdMode

unfoldable pub pixels : WfdMode → ℕ
pixels m = m.width * m.height

abbrev pub filter : (WfdMode → Bool) → List WfdMode → List WfdMode
filter keep [] = []
filter keep (m ∷ ms) = if keep m then m ∷ filter keep ms else filter keep ms

-- `max_by_key` over the pixels and then the frame rate: the last of the largest.
unfoldable pub is_larger : WfdMode → WfdMode → Bool
unfolding pixels
is_larger a b = ltb (pixels b) (pixels a) || ((pixels a == pixels b) && leb b.fps a.fps)

unfoldable pub largest_from : WfdMode → List WfdMode → WfdMode
unfolding is_larger
largest_from best [] = best
largest_from best (m ∷ ms) = largest_from (if is_larger m best then m else best) ms

abbrev pub largest : List WfdMode → Option WfdMode
largest [] = none
largest (m ∷ ms) = some (largest_from m ms)

abbrev pub is_progressive : WfdMode → Bool
is_progressive m = not m.interlaced

unfoldable pub best_mode : List WfdMode → Option WfdMode
unfolding largest_from
best_mode modes = largest (filter is_progressive modes)

abbrev pub is_within : ℕ × ℕ → WfdMode → Bool
is_within limit m = not m.interlaced && (leb m.width limit.0 && leb m.height limit.1)

unfoldable pub best_mode_within : ℕ × ℕ → List WfdMode → Option WfdMode
unfolding best_mode
best_mode_within limit modes = elim (largest (filter (is_within limit) modes)) [
  | none ↦ best_mode modes
  | some m ↦ some m
]

-- The aspect difference in thousandths, where both sides of the source are not zero.
unfoldable pub aspect_diff : ℕ × ℕ → WfdMode → ℕ
aspect_diff source m =
    let a = m.width * source.1 in
    let b = source.0 * m.height in (a - b + (b - a)) * 1000 / (source.0 * source.1)

-- The order of the keys: the aspect, then the pixels and the frame rate, both reversed.
unfoldable pub is_closer : ℕ × ℕ → WfdMode → WfdMode → Bool
unfolding aspect_diff pixels
is_closer source a b =
    ltb (aspect_diff source a) (aspect_diff source b)
    || ((aspect_diff source a == aspect_diff source b)
        && (ltb (pixels b) (pixels a) || ((pixels a == pixels b) && ltb b.fps a.fps)))

-- `min_by_key`: the first of the smallest.
unfoldable pub closest_from : ℕ × ℕ → WfdMode → List WfdMode → WfdMode
unfolding is_closer
closest_from source best [] = best
closest_from source best (m ∷ ms) =
    closest_from source (if is_closer source m best then m else best) ms

abbrev pub closest : ℕ × ℕ → List WfdMode → Option WfdMode
closest source [] = none
closest source (m ∷ ms) = some (closest_from source m ms)

abbrev pub offers : WfdMode → List WfdMode → Bool
offers m [] = false
offers m (x ∷ xs) = same_mode m x || offers m xs

abbrev pub pool_of : List WfdMode → List WfdMode → List WfdMode
pool_of [] modes = filter is_progressive modes
pool_of (m ∷ ms) modes = m ∷ ms

-- Past the native mode: the mode of the pool that is closest to the source.
unfoldable pub choose : ℕ × ℕ → ℕ × ℕ → List WfdMode → Option WfdMode
unfolding best_mode_within closest_from
choose source limit modes =
    if (source.0 == 0) || (source.1 == 0)
    then best_mode_within limit modes
    else closest source (pool_of (filter (is_within limit) modes) modes)

-- The sink's native mode, if it fits and is offered.
unfoldable pub native_fits : ℕ × ℕ → List WfdMode → Option WfdMode → Option WfdMode
native_fits limit modes none = none
native_fits limit modes (some m) = if is_within limit m && offers m modes then some m else none

unfoldable pub best_mode_for : ℕ × ℕ → ℕ × ℕ → SinkCaps → Option WfdMode
unfolding choose native_fits
best_mode_for source limit caps = elim (native_fits limit caps.modes caps.native) [
  | none ↦ choose source limit caps.modes
  | some m ↦ some m
]

abbrev pub is_compatible : ℕ × ℕ → ℕ → WfdMode → Bool
is_compatible limit fps m = leb m.fps fps && (leb m.width limit.0 && leb m.height limit.1)

unfoldable pub preferred_mode : ℕ × ℕ → ℕ × ℕ → ℕ → SinkCaps → Option WfdMode
unfolding best_mode_for
preferred_mode source limit fps caps =
    best_mode_for source limit (record caps { modes = filter (is_compatible limit fps) caps.modes })
