-- ===== src/Wfd/Tables/Widest.antt =====
-- The largest picture that the tables can name.
use big_net_screen.Base.{
  ℕ, ◌+◌, ◌^◌, ◌≤◌, ◌≡◌, refl, not, List, [], ◌∷◌, All, All-append, ltb, ◌==◌, arith, if◌then◌else◌,
  if-holds,
}
use Prim.Native.Nat.{bit_and}
use big_net_screen.Wfd.Tables.{
  Shape, ResolutionTable, cea, vesa, handheld, WfdMode, Bitmaps, cea_modes, vesa_modes, hh_modes,
  widest, max_source_size, decode_from, decode_all,
}

abbrev pub FitsIn : ℕ × ℕ → WfdMode → Type 0
FitsIn size mode = (mode.width ≤ size.0) × (mode.height ≤ size.1)

abbrev Fits : ℕ × ℕ → Shape → Type 0
Fits size m = (m.width ≤ size.0) × (m.height ≤ size.1)

larger : (a b : ℕ) → (a ≤ (if ltb a b then b else a)) × (b ≤ (if ltb a b then b else a))
larger a b = ground arith

-- The loop ends at or above where it starts, and above all that it passes.
record Covers (modes : List Shape) (width height : ℕ) : Type 0 where
  wide : width ≤ (widest modes width height).0
  tall : height ≤ (widest modes width height).1
  all : All (Fits (widest modes width height)) modes

widest-Covers : (modes : List Shape) (width height : ℕ) → Covers modes width height
unfolding widest
widest-Covers [] width height = record { wide = omega arith; tall = omega arith; all = tt }
widest-Covers (m ∷ ms) width height =
    let (w1, w2) = larger width m.width in
    let (h1, h2) = larger height m.height in
    let c =
      widest-Covers ms (if ltb width m.width then m.width else width)
        (if ltb height m.height then m.height else height) in
    record {
      wide = omega (arith, c.wide, w1);
      tall = omega (arith, c.tall, h1);
      all = ((omega (arith, c.wide, w2), omega (arith, c.tall, h2)), c.all);
    }

weaken :
    (modes : List Shape) (a b : ℕ × ℕ)
    → a.0 ≤ b.0
    → a.1 ≤ b.1
    → All (Fits a) modes
    → All (Fits b) modes
weaken [] a b w h f = tt
weaken (m ∷ ms) a b w h f = ((omega (arith, f.0.0), omega (arith, f.0.1)), weaken ms a b w h f.1)

tables_fit :
    All (Fits max_source_size) cea_modes
    × All (Fits max_source_size) vesa_modes
    × All (Fits max_source_size) hh_modes
unfolding max_source_size
tables_fit =
    let (w, h) = widest cea_modes 0 0 in
    let (w', h') = widest vesa_modes w h in
    let a = widest-Covers cea_modes 0 0 in
    let b = widest-Covers vesa_modes w h in
    let c = widest-Covers hh_modes w' h' in
    (
      weaken cea_modes (w, h) max_source_size (omega (arith, b.wide, c.wide))
          (omega (arith, b.tall, c.tall)) a.all,
      weaken vesa_modes (w', h') max_source_size c.wide c.tall b.all,
      c.all,
    )

decode_from-Fits :
    (index bitmap : ℕ) (table : ResolutionTable) (modes : List Shape)
    → All (Fits max_source_size) modes
    → All (FitsIn max_source_size) (decode_from index bitmap table modes)
unfolding decode_from
decode_from-Fits index bitmap table [] f = tt
decode_from-Fits index bitmap table (m ∷ ms) f =
    if-holds (All (FitsIn max_source_size)) (not (bit_and bitmap (2 ^ index) == 0)) _ _
      (λ _. (f.0, decode_from-Fits (index + 1) bitmap table ms f.1))
      (λ _. decode_from-Fits (index + 1) bitmap table ms f.1)

-- Whatever bits a sink sets, every mode that is decoded fits the size that a virtual screen is made
-- at, and that size is 1920 by 1200.
pub modes_fit :
    (bitmaps : Bitmaps)
    → All (FitsIn max_source_size) (decode_all bitmaps) × (max_source_size ≡ (1920, 1200))
unfolding decode_all max_source_size
modes_fit b =
    let (c, v, h) = tables_fit in
    (
      All-append (FitsIn max_source_size) _ _ (decode_from-Fits 0 b.cea_bits cea cea_modes c) (
          All-append (FitsIn max_source_size) _ _ (decode_from-Fits 0 b.vesa_bits vesa vesa_modes v)
            (decode_from-Fits 0 b.hh_bits handheld hh_modes h)),
      refl,
    )
