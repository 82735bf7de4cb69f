-- ===== src/Core/Sps/Writer.antt =====
-- `BitWriter` of crates/nd-core/src/pipeline/decode_buffer.rs.
pub mod Digits
pub mod Content
use Prim.Native.Nat.{bit_or}
use big_net_screen.Base.{
  ℕ, zero, suc, ◌+◌, ◌-◌, ◌*◌, ◌/◌, ◌%◌, ◌^◌, Bool, true, false, Option, none, some, List, [], ◌∷◌,
  ◌++◌, ◌==◌, if◌then◌else◌,
}
use big_net_screen.Base.Outcome.{Outcome, ok, fault, ◌>>=◌}
use big_net_screen.Core.Sps.Reader.{bit_at}

-- `bits` are written, and the last of the bytes has room for more when that is no multiple of 8.
pub record BitWriter : Type 0 where
  pub bytes : List ℕ
  pub bits : ℕ

abbrev pub empty : BitWriter
empty = record { bytes = []; bits = 0 }

-- `last_mut().expect(..)`
unfoldable pub or_last : ℕ → List ℕ → Option (List ℕ)
or_last mask [] = none
or_last mask (b ∷ []) = some (bit_or b mask ∷ [])
or_last mask (b ∷ c ∷ bs) = elim (or_last mask (c ∷ bs)) [ none ↦ none | some cs ↦ some (b ∷ cs) ]

abbrev pub stored : ℕ → Option (List ℕ) → Option BitWriter
stored bits none = none
stored bits (some bytes) = some (record { bytes = bytes; bits = bits })

-- The bytes with room for one more bit.
abbrev pub room : BitWriter → List ℕ
room w = if w.bits % 8 == 0 then w.bytes ++ (0 ∷ []) else w.bytes

-- One round of `put`, for the bit `b`.
unfoldable pub put_bit : ℕ → BitWriter → Option BitWriter
unfolding or_last
put_bit b w =
    stored (w.bits + 1)
      (if b == 1 then or_last (0x80 / 2 ^ (w.bits % 8)) (room w) else some (room w))

unfoldable pub put : ℕ → ℕ → BitWriter → Outcome BitWriter
unfolding put_bit
put value zero w = ok w
put value (suc count) w = elim (put_bit (value / 2 ^ count % 2) w) [
  | none ↦ fault
  | some w' ↦ put value count w'
]

-- An index out of range panics.
unfoldable pub put_copied : Option ℕ → BitWriter → Outcome BitWriter
unfolding put
put_copied none w = fault
put_copied (some b) w = put b 1 w

-- The rounds of `copy`, from the bit `at` on.
unfoldable pub copy_from : List ℕ → ℕ → ℕ → BitWriter → Outcome BitWriter
unfolding put_copied bit_at
copy_from bytes at zero w = ok w
copy_from bytes at (suc count) w = put_copied (bit_at bytes at) w >>= copy_from bytes (at + 1) count

-- 32 - n.leading_zeros(), for a word of `rounds` bits.
unfoldable pub bit_length : ℕ → ℕ → ℕ
bit_length zero n = 0
bit_length (suc rounds) n = if n == 0 then 0 else suc (bit_length rounds (n / 2))

unfoldable pub put_ue : ℕ → BitWriter → Outcome BitWriter
unfolding put bit_length
put_ue value w =
    let code = (value + 1) % 2 ^ 32 in
    let size = bit_length 32 code in put 0 (size - 1) w >>= put code size

-- The loop of `trailing_bits`; the byte is full after seven rounds at most.
unfoldable pub align : ℕ → BitWriter → Outcome BitWriter
unfolding put
align zero w = if w.bits % 8 == 0 then ok w else fault
align (suc rounds) w = elim (w.bits % 8 == 0) [ true ↦ ok w | false ↦ put 0 1 w >>= align rounds ]

unfoldable pub trailing_bits : BitWriter → Outcome BitWriter
unfolding put align
trailing_bits w = put 1 1 w >>= align 7
