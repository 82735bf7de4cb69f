-- ===== src/Base/Text/Numbers.antt =====
-- Numbers as text: `from_str_radix` of the unsigned integers, and the digits that `format!` pads to
-- a width. A number has no more digits than the width.
use Prim.Native.Nat.{ℕ, zero, suc, ◌+◌, ◌-◌, ◌*◌, ◌/◌, ◌%◌, ◌^◌, ◌<◌}
use mathlib.Core.Path.{◌≡◌, refl, ap, ◌∙◌}
use mathlib.Core.Bool.{false, ◌&&◌}
use mathlib.Core.Logic.{◌≢◌}
use mathlib.Core.Option.{Option, none, some}
use mathlib.Core.List.{List, [], ◌∷◌, ◌++◌}
use native.Mathlib.Omega.{arith}
use big_net_screen.Base.Lists.{All, All-append}
use big_net_screen.Base.Tests.{leb, ltb, ◌==◌, if◌then◌else◌}
use big_net_screen.Base.Text.{is_whitespace}

abbrev pub digit_value : ℕ → Option ℕ
digit_value c =
    if leb b'0' c && leb c b'9'
    then some (c - b'0')
    else if leb b'a' c && leb c b'z'
    then some (c - b'a' + 10)
    else if leb b'A' c && leb c b'Z'
    then some (c - b'A' + 10)
    else none

abbrev pub add_digit : ℕ → ℕ → ℕ → Option ℕ → Option ℕ
add_digit radix limit acc none = none
add_digit radix limit acc (some d) =
    if ltb d radix && ltb (acc * radix + d) limit then some (acc * radix + d) else none

abbrev pub read_digits : ℕ → ℕ → Option ℕ → List ℕ → Option ℕ
read_digits radix limit none cs = none
read_digits radix limit (some acc) [] = some acc
read_digits radix limit (some acc) (c ∷ cs) =
    read_digits radix limit (add_digit radix limit acc (digit_value c)) cs

-- One `+` before the digits is no error, and no digit at all is one.
unfoldable pub from_str_radix : ℕ → ℕ → List ℕ → Option ℕ
from_str_radix radix limit [] = none
from_str_radix radix limit (c ∷ []) = read_digits radix limit (some 0) (c ∷ [])
from_str_radix radix limit (c ∷ d ∷ cs) =
    if c == b'+'
    then read_digits radix limit (some 0) (d ∷ cs)
    else read_digits radix limit (some 0) (c ∷ d ∷ cs)

abbrev pub lower_digit : ℕ → ℕ
lower_digit d = if ltb d 10 then d + b'0' else d - 10 + b'a'

abbrev pub upper_digit : ℕ → ℕ
upper_digit d = if ltb d 10 then d + b'0' else d - 10 + b'A'

unfoldable pub hex : (ℕ → ℕ) → ℕ → ℕ → List ℕ
hex digit zero n = []
hex digit (suc width) n = hex digit width (n / 16) ++ (digit (n % 16) ∷ [])

-- A way of writing the digits that reads back.
pub record IsDigits (digit : ℕ → ℕ) : Type 0 where
  pub reads : (d : ℕ) → d < 16 → digit_value (digit d) ≡ some d
  pub dark : (d : ℕ) → d < 16 → is_whitespace (digit d) ≡ false
  pub no_plus : (d : ℕ) → d < 16 → (digit d == b'+') ≡ false

lower-reads : (d : ℕ) → d < 16 → digit_value (lower_digit d) ≡ some d
lower-reads d h = ground arith

upper-reads : (d : ℕ) → d < 16 → digit_value (upper_digit d) ≡ some d
upper-reads d h = ground arith

lower-dark : (d : ℕ) → d < 16 → is_whitespace (lower_digit d) ≡ false
lower-dark d h = ground arith

upper-dark : (d : ℕ) → d < 16 → is_whitespace (upper_digit d) ≡ false
upper-dark d h = ground arith

lower-no_plus : (d : ℕ) → d < 16 → (lower_digit d == b'+') ≡ false
lower-no_plus d h = ground arith

upper-no_plus : (d : ℕ) → d < 16 → (upper_digit d == b'+') ≡ false
upper-no_plus d h = ground arith

pub lower-IsDigits : IsDigits lower_digit
lower-IsDigits = record { reads = lower-reads; dark = lower-dark; no_plus = lower-no_plus }

pub upper-IsDigits : IsDigits upper_digit
upper-IsDigits = record { reads = upper-reads; dark = upper-dark; no_plus = upper-no_plus }

read_digits-append :
    (limit : ℕ) (acc : Option ℕ) (xs : List ℕ) (c : ℕ)
    → read_digits 16 limit acc (xs ++ (c ∷ []))
      ≡ read_digits 16 limit (read_digits 16 limit acc xs) (c ∷ [])
read_digits-append limit none [] c = refl
read_digits-append limit none (x ∷ xs) c = refl
read_digits-append limit (some a) [] c = refl
read_digits-append limit (some a) (x ∷ xs) c =
    read_digits-append limit (add_digit 16 limit a (digit_value x)) xs c

module _ (digit : ℕ → ℕ) (is : IsDigits digit) where
  last_digit : (limit n : ℕ) → n < limit → add_digit 16 limit (n / 16) (some (n % 16)) ≡ some n
  last_digit limit n h = ground arith

  read_digits-hex :
      (limit width n : ℕ)
      → n < 16 ^ width
      → n < limit
      → read_digits 16 limit (some 0) (hex digit width n) ≡ some n
  unfolding hex
  read_digits-hex limit zero n h k = ap some (omega (arith, h))
  read_digits-hex limit (suc width) n h k =
      read_digits-append limit (some 0) (hex digit width (n / 16)) (digit (n % 16))
      ∙ ap (λ o. read_digits 16 limit o (digit (n % 16) ∷ []))
          (read_digits-hex limit width (n / 16) (omega (arith, h)) (omega (arith, k)))
      ∙ ap (λ o. read_digits 16 limit (add_digit 16 limit (n / 16) o) [])
          (is.reads (n % 16) (omega arith))
      ∙ ap (λ o. read_digits 16 limit o []) (last_digit limit n k)

  pub hex-dark : (width n : ℕ) → All (λ c. is_whitespace c ≡ false) (hex digit width n)
  unfolding hex
  hex-dark zero n = tt
  hex-dark (suc width) n =
      All-append (λ c. is_whitespace c ≡ false) (hex digit width (n / 16)) (digit (n % 16) ∷ [])
        (hex-dark width (n / 16)) (is.dark (n % 16) (omega arith), tt)

  hex-no_plus : (width n : ℕ) → All (λ c. (c == b'+') ≡ false) (hex digit width n)
  unfolding hex
  hex-no_plus zero n = tt
  hex-no_plus (suc width) n =
      All-append (λ c. (c == b'+') ≡ false) (hex digit width (n / 16)) (digit (n % 16) ∷ [])
        (hex-no_plus width (n / 16)) (is.no_plus (n % 16) (omega arith), tt)

  unsigned :
      (limit : ℕ) (cs : List ℕ) (n : ℕ)
      → All (λ c. (c == b'+') ≡ false) cs
      → cs ≢ []
      → read_digits 16 limit (some 0) cs ≡ some n
      → from_str_radix 16 limit cs ≡ some n
  unfolding from_str_radix
  unsigned limit [] n h k e = absurd (k refl)
  unsigned limit (c ∷ []) n h k e = e
  unsigned limit (c ∷ d ∷ cs) n h k e = rw h.0 e

  pub hex-some : (width n : ℕ) → hex digit (suc width) n ≢ []
  unfolding hex
  hex-some width n e = nonempty (hex digit width (n / 16)) (digit (n % 16)) e
    where
      nonempty : (xs : List ℕ) (c : ℕ) → (xs ++ (c ∷ [])) ≢ []
      nonempty [] c e = cc
      nonempty (x ∷ xs) c e = cc

  -- A number that fits the width and the type is read back.
  pub from_str_radix-hex :
      (limit width n : ℕ)
      → n < 16 ^ suc width
      → n < limit
      → from_str_radix 16 limit (hex digit (suc width) n) ≡ some n
  from_str_radix-hex limit width n h k =
      unsigned limit (hex digit (suc width) n) n (hex-no_plus (suc width) n) (hex-some width n)
        (read_digits-hex limit (suc width) n h k)
