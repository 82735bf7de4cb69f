-- ===== src/Core/Sps/Units.antt =====
-- The access units of decode_buffer.rs: where their NAL units begin, and the SPS among them.
pub mod Starts
pub mod Codes
pub mod Pieces
pub mod Rendered
pub mod Probe
use Prim.Native.Nat.{bit_and}
use big_net_screen.Base.{
  ℕ, zero, suc, ◌+◌, ◌-◌, Bool, true, false, ◌&&◌, ◌||◌, Option, none, some, List, [], ◌∷◌, ◌++◌,
  length, slice, get_elem?, leb, ◌==◌, if◌then◌else◌,
}
use big_net_screen.Base.Outcome.{Outcome, ok, invalid, fault, ◌>>=◌, must}
use big_net_screen.Base.Text.{same_bytes}
use big_net_screen.Core.Sps.{with_decode_buffer}

abbrev pub is_code : List ℕ → Bool
is_code (a ∷ (b ∷ (c ∷ []))) = (a == 0) && (b == 0) && (c == 1)
is_code _ = false

-- The header of a coded slice.
abbrev pub is_slice : Option ℕ → Bool
is_slice none = false
is_slice (some header) = (bit_and header 0x1f == 1) || (bit_and header 0x1f == 5)

-- A zero byte before the code belongs to it.
unfoldable pub code_start : List ℕ → ℕ → Outcome ℕ
code_start bytes zero = ok 0
code_start bytes (suc i) = do
  before ← must (get_elem? bytes i)
  ok (if before == 0 then i else suc i)

-- The loop of `start_codes`, from `i` on. Every round moves on, so it ends within a round for each
-- byte and one more.
unfoldable pub starts_from : ℕ → List ℕ → ℕ → Outcome (List (ℕ × ℕ))
unfolding code_start slice
starts_from zero bytes i = fault
starts_from (suc fuel) bytes i = elim (leb (i + 3) (length bytes)) [
  | false ↦ ok []
  | true ↦ do
    three ← must (slice bytes i (i + 3))
    elim (is_code three) [
      | false ↦ starts_from fuel bytes (i + 1)
      | true ↦ do
        code ← code_start bytes i
        elim (is_slice (get_elem? bytes (i + 3))) [
          | true ↦ ok ((code, i + 3) ∷ [])
          | false ↦ do rest ← starts_from fuel bytes (i + 3); ok ((code, i + 3) ∷ rest)
        ]
    ]
]

unfoldable pub start_codes : List ℕ → Outcome (List (ℕ × ℕ))
unfolding starts_from
start_codes bytes = starts_from (suc (length bytes)) bytes 0

abbrev pub is_sps : List ℕ → Bool
is_sps [] = false
is_sps (header ∷ _) = bit_and header 0x1f == 7

abbrev pub end_of : List ℕ → List (ℕ × ℕ) → ℕ
end_of bytes [] = length bytes
end_of bytes ((next, _) ∷ _) = next

-- The `match` on the replacement and on what is written so far.
unfoldable pub place :
    List ℕ → ℕ → ℕ → ℕ → Option (List ℕ) → Option (List ℕ) → Outcome (Option (List ℕ))
unfolding slice
place bytes code nal end (some sps) out = do
  before ← elim out [ none ↦ must (slice bytes 0 code) | some o ↦ ok o ]
  mark ← must (slice bytes code nal)
  ok (some (before ++ (mark ++ sps)))
place bytes code nal end none (some o) = do
  kept ← must (slice bytes code end)
  ok (some (o ++ kept))
place bytes code nal end none none = ok none

-- `rewrite` may keep a state, as the closure of the probe does.
module _ {S : Type 0} (rewrite : S → List ℕ → Outcome (Option (List ℕ) × S)) where
  abbrev pub replacement : S → List ℕ → Outcome (Option (List ℕ) × S)
  replacement s unit = if is_sps unit then rewrite s unit else ok (none, s)

  unfoldable pub rewrite_units :
      List ℕ → List (ℕ × ℕ) → S → Option (List ℕ) → Outcome (Option (List ℕ) × S)
  unfolding place slice
  rewrite_units bytes [] s out = ok (out, s)
  rewrite_units bytes ((code, nal) ∷ starts) s out = do
    unit ← must (slice bytes nal (end_of bytes starts))
    (new, s') ← replacement s unit
    out' ← place bytes code nal (end_of bytes starts) new out
    rewrite_units bytes starts s' out'

  unfoldable pub rewrite_access_unit : List ℕ → S → Outcome (Option (List ℕ) × S)
  unfolding rewrite_units start_codes
  rewrite_access_unit bytes s = do starts ← start_codes bytes; rewrite_units bytes starts s none

-- The last SPS and what it became.
abbrev pub LastSps : Type 0
LastSps = Option (List ℕ × Option (List ℕ))

abbrev pub answered : List ℕ → Outcome (List ℕ) → Outcome (Option (List ℕ) × LastSps)
answered sps (ok out) = ok (some out, some (sps, some out))
answered sps invalid = ok (none, some (sps, none))
answered sps fault = fault

-- The closure of the probe.
unfoldable pub answer : LastSps → List ℕ → Outcome (Option (List ℕ) × LastSps)
unfolding with_decode_buffer
answer none sps = answered sps (with_decode_buffer sps)
answer (some (seen, old)) sps =
    if same_bytes seen sps
    then ok (old, some (seen, old))
    else answered sps (with_decode_buffer sps)
