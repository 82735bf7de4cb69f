-- ===== src/Wfd/Tables/Naming.antt =====
-- Every mode of the tables has a name in M4, and the name means that mode.
use big_net_screen.Base.{
  ℕ, suc, ◌≡◌, refl, ap, Bool, true, false, ◌&&◌, Option, none, some, List, [], ◌∷◌, ◌++◌, All,
  ◌==◌, ==_iff, arith,
}
use big_net_screen.Wfd.Tables.{
  same_bool, same_mode, Shape, ResolutionTable, cea, vesa, handheld, WfdMode, mode_of, cea_modes,
  vesa_modes, hh_modes, table_number, decode_all, m4_bitmaps, m4_native, mode_from_native,
}

-- The mode of each entry, under its index.
abbrev pub numbered : ResolutionTable → ℕ → List Shape → List WfdMode
numbered table index [] = []
numbered table index (m ∷ ms) = mode_of table index m ∷ numbered table (suc index) ms

-- Every mode that the three tables have.
abbrev pub all_modes : List WfdMode
all_modes = numbered cea 0 cea_modes ++ (numbered vesa 0 vesa_modes ++ numbered handheld 0 hh_modes)

-- Both names of the mode, the bit and the native byte, mean it and no other.
abbrev pub IsNamed : WfdMode → Type 0
IsNamed mode =
    (decode_all (m4_bitmaps mode) ≡ mode ∷ []) × (mode_from_native (m4_native mode) ≡ some mode)

same_bool-eq : (a b : Bool) → same_bool a b ≡ true → a ≡ b
same_bool-eq a b h = ground arith

same_table-eq : (a b : ResolutionTable) → (table_number a == table_number b) ≡ true → a ≡ b
same_table-eq a b h = ground arith

both : (a b : Bool) → (a && b) ≡ true → (a ≡ true) × (b ≡ true)
both a b h = ground arith

pub same_mode-eq : (a b : WfdMode) → same_mode a b ≡ true → a ≡ b
same_mode-eq a b h =
    let (w, h1) = both _ _ h in
    let (t, h2) = both _ _ h1 in
    let (f, h3) = both _ _ h2 in
    let (i, h4) = both _ _ h3 in
    let (k, n) = both _ _ h4 in
    λ d. record {
      width = (==_iff a.width b.width).0 w d;
      height = (==_iff a.height b.height).0 t d;
      fps = (==_iff a.fps b.fps).0 f d;
      interlaced = same_bool-eq a.interlaced b.interlaced i d;
      table = same_table-eq a.table b.table k d;
      index = (==_iff a.index b.index).0 n d;
    }

abbrev same_modes : List WfdMode → List WfdMode → Bool
same_modes [] [] = true
same_modes (x ∷ xs) (y ∷ ys) = same_mode x y && same_modes xs ys
same_modes _ _ = false

abbrev same_found : Option WfdMode → WfdMode → Bool
same_found none b = false
same_found (some a) b = same_mode a b

named_test : WfdMode → Bool
named_test mode =
    same_modes (decode_all (m4_bitmaps mode)) (mode ∷ [])
    && same_found (mode_from_native (m4_native mode)) mode

abbrev pub all_pass : (WfdMode → Bool) → List WfdMode → Bool
all_pass test [] = true
all_pass test (m ∷ ms) = test m && all_pass test ms

named_table : all_pass named_test all_modes ≡ true
unfolding named_test decode_all m4_bitmaps mode_from_native m4_native
named_table = refl

differ : false ≡ true → ⊥
differ e = cc

same_found-eq : (o : Option WfdMode) (b : WfdMode) → same_found o b ≡ true → o ≡ some b
same_found-eq none b h = absurd (differ h)
same_found-eq (some a) b h = ap some (same_mode-eq a b h)

one_mode : (xs : List WfdMode) (b : WfdMode) → same_modes xs (b ∷ []) ≡ true → xs ≡ b ∷ []
one_mode [] b h = absurd (differ h)
one_mode (x ∷ []) b h = ap (λ m. m ∷ []) (same_mode-eq x b (both _ _ h).0)
one_mode (x ∷ (y ∷ ys)) b h = absurd (differ (both _ _ h).1)

All-IsNamed : (modes : List WfdMode) → all_pass named_test modes ≡ true → All IsNamed modes
unfolding named_test
All-IsNamed [] h = tt
All-IsNamed (m ∷ ms) h =
    let (here, rest) = both (named_test m) (all_pass named_test ms) h in
    let (bits, native) = both _ _ here in
    (
      (
        one_mode (decode_all (m4_bitmaps m)) m bits,
        same_found-eq (mode_from_native (m4_native m)) m native,
      ),
      All-IsNamed ms rest,
    )

-- Each mode of the three tables has a name in M4 that means it: the bitmaps that M4 gives decode
-- to that mode and no other, and so does the native byte.
pub modes-IsNamed : All IsNamed all_modes
modes-IsNamed = All-IsNamed all_modes named_table
