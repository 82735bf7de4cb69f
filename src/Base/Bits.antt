-- ===== src/Base/Bits.antt =====
-- `&`, `|` and `^` on bytes, and the masks of wider words, as arithmetic.
pub mod Or
use Prim.Native.Nat.{ℕ, zero, suc, ◌+◌, ◌-◌, ◌*◌, ◌/◌, ◌%◌, ◌^◌, ◌<◌}
use Prim.Native.Nat.{bit_and, bit_or, bit_xor, digits, bit_and-bitwise, min, ◌≤◌}
use mathlib.Core.Path.{◌≡◌, refl, ap, ◌∙◌}
use mathlib.Core.Bool.{Bool, true, ◌&&◌}
use native.Mathlib.Omega.{arith}
use native.Mathlib.Nat.{pow-suc}
use big_net_screen.Base.Tests.{◌==◌, ==_iff}

-- A test that every number below the bound passes; at a closed bound it is run, not proved.
unfoldable pub passes : (ℕ → Bool) → ℕ → Bool
passes test zero = true
passes test (suc bound) = passes test bound && test bound

pub passes-below :
    (test : ℕ → Bool) (bound i : ℕ) → i < bound → passes test bound ≡ true → test i ≡ true
unfolding passes
passes-below test zero i low h = absurd (omega arith)
passes-below test (suc bound) i low h = ground (arith, passes-below test bound i)

pub bit_and_0x7f : (b : ℕ) → b < 256 → bit_and b 0x7f ≡ b % 128
unfolding passes
bit_and_0x7f b h = (==_iff _ _).0 (passes-below (λ x. bit_and x 0x7f == x % 128) 256 b h refl)

pub bit_or_0x80 : (b : ℕ) → b < 128 → bit_or 0x80 b ≡ 128 + b
unfolding passes
bit_or_0x80 b h = (==_iff _ _).0 (passes-below (λ x. bit_or 0x80 x == 128 + x) 128 b h refl)

pub bit_or_zero : (b : ℕ) → b < 256 → bit_or 0 b ≡ b
unfolding passes
bit_or_zero b h = (==_iff _ _).0 (passes-below (λ x. bit_or 0 x == x) 256 b h refl)

-- On bytes, `^` by the same mask twice gives the byte back.
xor_table : passes (λ x. passes (λ m. bit_xor (bit_xor x m) m == x) 256) 256 ≡ true
unfolding passes
xor_table = refl

pub bit_xor_twice : (x m : ℕ) → x < 256 → m < 256 → bit_xor (bit_xor x m) m ≡ x
bit_xor_twice x m hx hm = (==_iff _ _).0 (
    passes-below (λ m. bit_xor (bit_xor x m) m == x) 256 m hm
      (passes-below (λ x. passes (λ m. bit_xor (bit_xor x m) m == x) 256) 256 x hx xor_table))

pub twice : (q k : ℕ) → q * 2 ^ suc k ≡ 2 * (q * 2 ^ k)
twice q k = omega (arith, ap (λ (t : ℕ). q * t) (pow-suc 2 k))

-- `&` with a mask of `k` ones keeps the remainder, on any fuel that the number allows.
low_digits :
    (k fuel a mask q r : ℕ)
    → a ≤ fuel
    → mask + 1 ≡ 2 ^ k
    → a ≡ q * 2 ^ k + r
    → r < 2 ^ k
    → digits (λ _. zero) min fuel a mask ≡ r
low_digits k zero zero mask q r h m e low = omega arith
low_digits k zero (suc a) mask q r h m e low = absurd (omega arith)
low_digits k (suc fuel) zero mask q r h m e low = omega arith
low_digits zero (suc fuel) (suc a) mask q r h m e low = omega (
  arith,
  low_digits zero fuel (suc a / 2) (mask / 2) (suc a / 2) 0 (omega arith) (omega arith)
      (omega arith) (omega arith),
)
low_digits (suc k) (suc fuel) (suc a) mask q r h m e low = omega (
  arith,
  pow-suc 2 k,
  low_digits k fuel (suc a / 2) (mask / 2) q (r / 2) (omega arith) (omega (arith, pow-suc 2 k))
      (omega (arith, twice q k)) (omega (arith, pow-suc 2 k)),
  twice q k,
)

pub bit_and_0xff : (a : ℕ) → bit_and a 0xff ≡ a % 256
bit_and_0xff a =
    bit_and-bitwise a 0xff
    ∙ low_digits 8 a a 0xff (a / 256) (a % 256) (omega arith) refl (omega arith) (omega arith)
