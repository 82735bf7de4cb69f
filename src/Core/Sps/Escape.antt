-- ===== src/Core/Sps/Escape.antt =====
-- The emulation prevention of decode_buffer.rs: a NAL unit's payload holds no start code.
use mathlib.Core.Path.{subst}
use big_net_screen.Base.{
  ℕ, ◌+◌, ◌≤◌, ◌≡◌, refl, true, false, ◌&&◌, List, [], ◌∷◌, leb, ◌==◌, if◌then◌else◌, if-holds,
  arith,
}

-- `run` is the number of zero bytes just before.
unfoldable pub unescape_from : ℕ → List ℕ → List ℕ
unescape_from run [] = []
unescape_from run (byte ∷ bytes) =
    if leb 2 run && (byte == 3)
    then unescape_from 0 bytes
    else byte ∷ unescape_from (if byte == 0 then run + 1 else 0) bytes

abbrev pub unescape : List ℕ → List ℕ
unescape bytes = unescape_from 0 bytes

-- The `3` sets the count of zeros back before the byte itself is counted.
abbrev pub after_escape : ℕ → ℕ → ℕ
after_escape run byte = if byte == 0 then (if leb 2 run && leb byte 3 then 0 else run) + 1 else 0

unfoldable pub escape_from : ℕ → List ℕ → List ℕ
escape_from run [] = []
escape_from run (byte ∷ bytes) =
    let rest = byte ∷ escape_from (after_escape run byte) bytes in
    if leb 2 run && leb byte 3 then 3 ∷ rest else rest

abbrev pub escape : List ℕ → List ℕ
escape bytes = escape_from 0 bytes

unescape_from-escape_from :
    (bytes : List ℕ) (run : ℕ) → unescape_from run (escape_from run bytes) ≡ bytes
unfolding unescape_from escape_from
unescape_from-escape_from [] run = refl
unescape_from-escape_from (b ∷ bs) run =
    ground (arith, unescape_from-escape_from bs (after_escape run b))

-- Taking the escapes out of a payload that was escaped gives it back, whatever bytes it holds.
pub unescape-escape : (bytes : List ℕ) → unescape (escape bytes) ≡ bytes
unescape-escape bytes = unescape_from-escape_from bytes 0

-- No two zero bytes, `run` just before the list among them, stand before a byte below 3.
abbrev pub IsQuiet : ℕ → List ℕ → Type 0
IsQuiet run [] = Unit
IsQuiet run (b ∷ bs) = (2 ≤ run → 3 ≤ b) × IsQuiet (if b == 0 then run + 1 else 0) bs

escaped-run :
    (run b : ℕ) → (leb 2 run && leb b 3) ≡ true → after_escape run b ≡ (if b == 0 then 0 + 1 else 0)
escaped-run run b t = ground arith

kept-run :
    (run b : ℕ)
    → (leb 2 run && leb b 3) ≡ false
    → after_escape run b ≡ (if b == 0 then run + 1 else 0)
kept-run run b f = ground arith

not_escaped : (run b : ℕ) → (leb 2 run && leb b 3) ≡ false → 2 ≤ run → 3 ≤ b
not_escaped run b f h = ground arith

escape_from-IsQuiet : (bytes : List ℕ) (run : ℕ) → IsQuiet run (escape_from run bytes)
unfolding escape_from
escape_from-IsQuiet [] run = tt
escape_from-IsQuiet (b ∷ bs) run =
    if-holds (IsQuiet run) (leb 2 run && leb b 3) _ _
      (λ t. (
        λ h. omega arith,
        (
          λ h. absurd (omega arith),
          subst (λ n. IsQuiet n (escape_from (after_escape run b) bs)) (escaped-run run b t)
              (escape_from-IsQuiet bs (after_escape run b)),
        ),
      ))
      (λ f. (
        λ h. not_escaped run b f h,
        subst (λ n. IsQuiet n (escape_from (after_escape run b) bs)) (kept-run run b f)
            (escape_from-IsQuiet bs (after_escape run b)),
      ))

-- What is written holds no start code and nothing that a decoder takes for one: two zero bytes are
-- never followed by a byte below 3.
pub escape-IsQuiet : (bytes : List ℕ) → IsQuiet 0 (escape bytes)
escape-IsQuiet bytes = escape_from-IsQuiet bytes 0
