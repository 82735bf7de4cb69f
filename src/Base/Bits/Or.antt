-- ===== src/Base/Bits/Or.antt =====
-- `|` of a shifted word with one that fits below it is their sum.
use Prim.Native.Nat.{
  ℕ, zero, suc, ◌+◌, ◌*◌, ◌/◌, ◌^◌, ◌≤◌, ◌<◌, max, bit_or, digits, bit_or-bitwise,
}
use mathlib.Core.Path.{◌≡◌, ◌∙◌, refl}
use native.Mathlib.Omega.{arith}
use native.Mathlib.Nat.{pow-suc}
use big_net_screen.Base.Bits.{twice}

-- On any fuel that the word allows.
or_fits :
    (k fuel word q r : ℕ)
    → word ≤ fuel
    → word ≡ q * 2 ^ k
    → r < 2 ^ k
    → digits (λ y. y) max fuel word r ≡ word + r
or_fits k zero zero q r h e low = omega arith
or_fits k zero (suc word) q r h e low = absurd (omega arith)
or_fits k (suc fuel) zero q r h e low = omega arith
or_fits zero (suc fuel) (suc word) q r h e low = omega (
  arith,
  or_fits zero fuel (suc word / 2) (suc word / 2) (r / 2) (omega arith) (omega arith) (omega arith),
)
or_fits (suc k) (suc fuel) (suc word) q r h e low = omega (
  arith,
  twice q k,
  or_fits k fuel (suc word / 2) q (r / 2) (omega arith) (omega (arith, twice q k))
      (omega (arith, pow-suc 2 k)),
)

pub bit_or_word : (k q r : ℕ) → r < 2 ^ k → bit_or (q * 2 ^ k) r ≡ q * 2 ^ k + r
bit_or_word k q r h =
    bit_or-bitwise (q * 2 ^ k) r ∙ or_fits k (q * 2 ^ k) (q * 2 ^ k) q r (omega arith) refl h
