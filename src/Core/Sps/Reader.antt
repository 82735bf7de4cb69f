-- ===== src/Core/Sps/Reader.antt =====
-- `BitReader` of crates/nd-core/src/pipeline/decode_buffer.rs. A reader's step is a
-- function of the reader; the monad threads it, and `invalid` is the `None` that `?` gives up with.
pub mod Local
use big_net_screen.Base.{
  ℕ, zero, suc, ◌+◌, ◌-◌, ◌*◌, ◌/◌, ◌%◌, ◌^◌, Bool, true, false, Option, none, some, List, [], ◌∷◌,
  ◌++◌, length, get_elem?, leb, ◌==◌, if◌then◌else◌,
}
use big_net_screen.Base.Int.{ℤ, pos, sub_ℕ}
use big_net_screen.Base.Outcome.{Outcome, ok, invalid, fault}

pub record BitReader : Type 0 where
  pub data_bytes : List ℕ
  pub at : ℕ

abbrev pub Read {ℓ} : Type ℓ → Type ℓ
Read A = BitReader → Outcome (A × BitReader)

abbrev pub then_read {ℓ κ} :
    {A : Type ℓ} {B : Type κ} → Outcome (A × BitReader) → (A → Read B) → Outcome (B × BitReader)
then_read (ok (a, r)) f = f a r
then_read invalid f = invalid
then_read fault f = fault

infixl 5 ◌>>=◌ ◌>>◌
unfoldable pub ◌>>=◌ {ℓ κ} : {A : Type ℓ} {B : Type κ} → Read A → (A → Read B) → Read B
(m >>= f) r = then_read (m r) f

unfoldable pub ◌>>◌ {ℓ} : {B : Type ℓ} → Read (Unit {0}) → Read B → Read B
(m >> k) r = then_read (m r) (λ _. k)

abbrev pub pure {ℓ} : {A : Type ℓ} → A → Read A
pure a = λ r. ok (a, r)

abbrev pub give_up {ℓ} : {A : Type ℓ} → Read A
give_up = λ r. invalid

abbrev pub bit_of : Option ℕ → ℕ → Option ℕ
bit_of none k = none
bit_of (some byte) k = some (byte / 2 ^ k % 2)

-- Bit `i` of the bytes, the highest of a byte first.
unfoldable pub bit_at : List ℕ → ℕ → Option ℕ
bit_at bytes i = bit_of (get_elem? bytes (i / 8)) (7 - i % 8)

unfoldable pub bit : Read ℕ
unfolding bit_at
bit r = elim (bit_at r.data_bytes r.at) [
  | none ↦ invalid
  | some b ↦ ok (b, record r { at = r.at + 1 })
]

unfoldable pub flag : Read Bool
unfolding bit
flag = do b ← bit; pure (b == 1)

-- The fold of `read`, over a word of 32 bits.
unfoldable pub read_from : ℕ → ℕ → Read ℕ
unfolding bit
read_from zero value = pure value
read_from (suc count) value = do b ← bit; read_from count (value * 2 % 2 ^ 32 + b)

abbrev pub read : ℕ → Read ℕ
read count = read_from count 0

unfoldable pub skip : ℕ → Read (Unit {0})
skip count r =
    if leb (r.at + count) (length r.data_bytes * 8)
    then ok (tt, record r { at = r.at + count })
    else invalid

-- The zeros before a one, where `seen` are read; the one that is past 31 gives up. `rounds` is the
-- room that is left, 32 - `seen`.
unfoldable pub leading : ℕ → ℕ → Read ℕ
unfolding bit
leading zero seen = give_up
leading (suc rounds) seen = do b ← bit; if b == 0 then leading rounds (seen + 1) else pure seen

unfoldable pub ue : Read ℕ
unfolding leading read_from
ue = do zeros ← leading 32 0; low ← read zeros; pure (2 ^ zeros - 1 + low)

unfoldable pub se : Read ℤ
unfolding ue
se = do code ← ue; pure (if code % 2 == 1 then pos ((code + 1) / 2) else sub_ℕ 0 (code / 2))
