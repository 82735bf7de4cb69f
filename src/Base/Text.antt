-- ===== src/Base/Text.antt =====
-- Text as the list of its bytes, and what the standard library does with it: comparison, splitting
-- and trimming.
pub mod Split
pub mod Pieces
pub mod Numbers
pub mod Words
use Prim.Native.Char.{code}
use Prim.Native.String.{String}
use Prim.Native.Nat.{ℕ, zero, suc, ◌+◌, ◌-◌, ◌≤◌, ◌<◌}
use mathlib.Core.Path.{◌≡◌, refl, ap, ap₂, sym, ◌∙◌}
use mathlib.Core.Logic.{◌≢◌}
use mathlib.Core.Bool.{Bool, true, false, not, ◌&&◌, ◌||◌}
use mathlib.Core.Option.{Option, none, some}
use mathlib.Core.List.{List, [], ◌∷◌, ◌++◌, map}
use native.Mathlib.Omega.{arith}
use big_net_screen.Base.Lists.{length, All}
use big_net_screen.Base.Tests.{leb, ◌==◌, ==_iff, if◌then◌else◌}

-- The bytes of an ASCII literal.
abbrev pub codes : String → List ℕ
codes String.[] = []
codes (String.◌∷◌ c s) = code c ∷ codes s

abbrev pub same_bytes : List ℕ → List ℕ → Bool
same_bytes [] [] = true
same_bytes [] (y ∷ ys) = false
same_bytes (x ∷ xs) [] = false
same_bytes (x ∷ xs) (y ∷ ys) = (x == y) && same_bytes xs ys

both : (p q : Bool) → (p && q) ≡ true → (p ≡ true) × (q ≡ true)
both p q h = ground arith

pub same_bytes-eq : (xs ys : List ℕ) → same_bytes xs ys ≡ true → xs ≡ ys
same_bytes-eq [] [] h = refl
same_bytes-eq [] (y ∷ ys) h = cc
same_bytes-eq (x ∷ xs) [] h = cc
same_bytes-eq (x ∷ xs) (y ∷ ys) h =
    let t = both (x == y) (same_bytes xs ys) h in
    ap₂ (λ b bs. b ∷ bs) ((==_iff x y).0 t.0) (same_bytes-eq xs ys t.1)

pub same_bytes_refl : (xs : List ℕ) → same_bytes xs xs ≡ true
same_bytes_refl [] = refl
same_bytes_refl (x ∷ xs) = let e = (==_iff x x).1 refl in let f = same_bytes_refl xs in rw (e, f)

pub same_bytes-length : (xs ys : List ℕ) → length xs ≢ length ys → same_bytes xs ys ≡ false
same_bytes-length [] [] h = absurd (h refl)
same_bytes-length [] (y ∷ ys) h = refl
same_bytes-length (x ∷ xs) [] h = refl
same_bytes-length (x ∷ xs) (y ∷ ys) h =
    let f = same_bytes-length xs ys (λ e. h (ap suc e)) in rw f (and_false (x == y))
  where
    and_false : (b : Bool) → (b && false) ≡ false
    and_false true = refl
    and_false false = refl

abbrev pub all : (ℕ → Bool) → List ℕ → Bool
all test [] = true
all test (x ∷ xs) = test x && all test xs

abbrev pub any : (ℕ → Bool) → List ℕ → Bool
any test [] = false
any test (x ∷ xs) = test x || any test xs

abbrev pub to_ascii_lowercase : ℕ → ℕ
to_ascii_lowercase c = if leb b'A' c && leb c b'Z' then c + 32 else c

abbrev pub eq_ignore_ascii_case : List ℕ → List ℕ → Bool
eq_ignore_ascii_case xs ys = same_bytes (map to_ascii_lowercase xs) (map to_ascii_lowercase ys)

-- Of the ASCII characters.
abbrev pub is_whitespace : ℕ → Bool
is_whitespace c = (leb 9 c && leb c 13) || (c == 32)

abbrev pub trim_start : List ℕ → List ℕ
trim_start [] = []
trim_start (c ∷ cs) = if is_whitespace c then trim_start cs else c ∷ cs

-- `c ∷ cs`, unless nothing but whitespace is left.
abbrev pub cons_unless_blank : ℕ → List ℕ → List ℕ
cons_unless_blank c [] = if is_whitespace c then [] else c ∷ []
cons_unless_blank c (d ∷ ds) = c ∷ d ∷ ds

abbrev pub trim_end : List ℕ → List ℕ
trim_end [] = []
trim_end (c ∷ cs) = cons_unless_blank c (trim_end cs)

abbrev pub trim : List ℕ → List ℕ
trim cs = trim_end (trim_start cs)

-- The first piece takes the byte.
abbrev pub push : ℕ → List (List ℕ) → List (List ℕ)
push c [] = (c ∷ []) ∷ []
push c (l ∷ ls) = (c ∷ l) ∷ ls

-- `split(char)`
abbrev pub split : ℕ → List ℕ → List (List ℕ)
split sep [] = [] ∷ []
split sep (c ∷ cs) = if c == sep then [] ∷ split sep cs else push c (split sep cs)

abbrev pub is_crlf : ℕ → ℕ → Bool
is_crlf a b = (a == 13) && (b == 10)

-- `split("\r\n")`
unfoldable pub split_crlf : List ℕ → List (List ℕ)
split_crlf [] = [] ∷ []
split_crlf (a ∷ []) = (a ∷ []) ∷ []
split_crlf (a ∷ b ∷ cs) = elim (is_crlf a b) [
  | true ↦ [] ∷ split_crlf cs
  | false ↦ push a (split_crlf (b ∷ cs))
]

abbrev pub grow : ℕ → Option (List ℕ × List ℕ) → Option (List ℕ × List ℕ)
grow c none = none
grow c (some (before, after)) = some (c ∷ before, after)

-- `split_once(char)`
abbrev pub split_once : ℕ → List ℕ → Option (List ℕ × List ℕ)
split_once sep [] = none
split_once sep (c ∷ cs) = if c == sep then some ([], cs) else grow c (split_once sep cs)

abbrev pub kept : ℕ → Option (List ℕ) → Option (List ℕ)
kept c none = none
kept c (some cs) = some (c ∷ cs)

unfoldable pub strip_suffix : List ℕ → List ℕ → Option (List ℕ)
strip_suffix suffix [] = if same_bytes suffix [] then some [] else none
strip_suffix suffix (c ∷ cs) =
    if same_bytes suffix (c ∷ cs) then some [] else kept c (strip_suffix suffix cs)
