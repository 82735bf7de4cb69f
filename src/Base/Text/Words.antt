-- ===== src/Base/Text/Words.antt =====
-- `split_whitespace` and `lines` of `str`, for ASCII text.
use Prim.Native.Nat.{ℕ}
use mathlib.Core.Path.{◌≡◌, refl, ap}
use mathlib.Core.Bool.{false}
use mathlib.Core.Logic.{◌≢◌}
use mathlib.Core.List.{List, [], ◌∷◌, ◌++◌}
use big_net_screen.Base.Lists.{All}
use big_net_screen.Base.Tests.{◌==◌, if◌then◌else◌}
use big_net_screen.Base.Text.{is_whitespace, push, split}

abbrev pub pieces : List ℕ → List (List ℕ)
pieces [] = [] ∷ []
pieces (c ∷ cs) = if is_whitespace c then [] ∷ pieces cs else push c (pieces cs)

abbrev pub nonempty : List (List ℕ) → List (List ℕ)
nonempty [] = []
nonempty ([] ∷ words) = nonempty words
nonempty ((c ∷ word) ∷ words) = (c ∷ word) ∷ nonempty words

unfoldable pub split_whitespace : List ℕ → List (List ℕ)
split_whitespace cs = nonempty (pieces cs)

-- The line without the `\r` before its `\n`.
abbrev pub without_cr : List ℕ → List ℕ
without_cr [] = []
without_cr (c ∷ []) = if c == 13 then [] else c ∷ []
without_cr (c ∷ d ∷ cs) = c ∷ without_cr (d ∷ cs)

-- What follows the last `\n` is a line only if there is something.
abbrev pub lines_of : List (List ℕ) → List (List ℕ)
lines_of [] = []
lines_of ([] ∷ []) = []
lines_of ((c ∷ cs) ∷ []) = (c ∷ cs) ∷ []
lines_of (line ∷ next ∷ more) = without_cr line ∷ lines_of (next ∷ more)

unfoldable pub lines : List ℕ → List (List ℕ)
lines text = lines_of (split 10 text)

-- No character is whitespace.
abbrev pub IsDark : List ℕ → Type 0
IsDark cs = All (λ c. is_whitespace c ≡ false) cs

pieces-append :
    (word rest : List ℕ) → IsDark word → pieces (word ++ (32 ∷ rest)) ≡ word ∷ pieces rest
pieces-append [] rest h = refl
pieces-append (c ∷ cs) rest h = rw h.0 (ap (push c) (pieces-append cs rest h.1))

pub split_whitespace-append :
    (word rest : List ℕ)
    → IsDark word
    → word ≢ []
    → split_whitespace (word ++ (32 ∷ rest)) ≡ word ∷ split_whitespace rest
unfolding split_whitespace
split_whitespace-append [] rest h k = absurd (k refl)
split_whitespace-append (c ∷ cs) rest h k = ap nonempty (pieces-append (c ∷ cs) rest h)
