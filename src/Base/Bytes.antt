-- ===== src/Base/Bytes.antt =====
-- Big-endian words: `to_be_bytes` and `from_be_bytes`.
use Prim.Native.Nat.{ℕ, ◌+◌, ◌*◌, ◌/◌, ◌%◌, ◌^◌, ◌<◌}
use mathlib.Core.Path.{◌≡◌}
use mathlib.Core.List.{List, [], ◌∷◌, ◌++◌}
use native.Mathlib.Omega.{arith}
use big_net_screen.Base.Lists.{All}

abbrev pub IsByte : ℕ → Type 0
IsByte b = b < 256

abbrev pub be16 : ℕ → List ℕ
be16 n = (n / 2 ^ 8 % 256) ∷ (n % 256) ∷ []

abbrev pub be32 : ℕ → List ℕ
be32 n = (n / 2 ^ 24 % 256) ∷ (n / 2 ^ 16 % 256) ∷ (n / 2 ^ 8 % 256) ∷ (n % 256) ∷ []

abbrev pub be64 : ℕ → List ℕ
be64 n = be32 (n / 2 ^ 32) ++ be32 n

abbrev pub of_be16 : ℕ → ℕ → ℕ
of_be16 a b = a * 256 + b

abbrev pub of_be32 : ℕ → ℕ → ℕ → ℕ → ℕ
of_be32 a b c d = ((a * 256 + b) * 256 + c) * 256 + d

pub of_be16-be16 : (n : ℕ) → n < 2 ^ 16 → of_be16 (n / 2 ^ 8 % 256) (n % 256) ≡ n
of_be16-be16 n h = omega arith

pub of_be32-be32 :
    (n : ℕ)
    → n < 2 ^ 32
    → of_be32 (n / 2 ^ 24 % 256) (n / 2 ^ 16 % 256) (n / 2 ^ 8 % 256) (n % 256) ≡ n
of_be32-be32 n h = omega arith

pub be32-All : (n : ℕ) → All IsByte (be32 n)
be32-All n = omega arith

-- Four equal bytes are one equal word.
pub be32-injective :
    (m n : ℕ)
    → m < 2 ^ 32
    → n < 2 ^ 32
    → m / 2 ^ 24 % 256 ≡ n / 2 ^ 24 % 256
    → m / 2 ^ 16 % 256 ≡ n / 2 ^ 16 % 256
    → m / 2 ^ 8 % 256 ≡ n / 2 ^ 8 % 256
    → m % 256 ≡ n % 256
    → m ≡ n
be32-injective m n hm hn a b c d = omega arith
