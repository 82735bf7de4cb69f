-- ===== src/Base/Text/Split.antt =====
-- Text that was put together comes apart again.
use Prim.Native.Nat.{ℕ}
use mathlib.Core.Path.{◌≡◌, refl, ap, ◌∙◌}
use mathlib.Core.Logic.{◌≢◌}
use mathlib.Core.Bool.{Bool, true, false, ◌&&◌, ◌||◌}
use mathlib.Core.Option.{some}
use mathlib.Core.List.{List, [], ◌∷◌, ◌++◌}
use native.Mathlib.Omega.{arith}
use big_net_screen.Base.Lists.{All, length-append}
use big_net_screen.Base.Tests.{◌==◌, ==_iff}
use big_net_screen.Base.Text.{
  same_bytes_refl, same_bytes-length, all, any, push, split, is_crlf, split_crlf, strip_suffix,
  kept,
}

-- No byte of the text is `sep`.
abbrev pub Lacks : ℕ → List ℕ → Type 0
Lacks sep xs = All (λ x. x ≢ sep) xs

differs : (x sep : ℕ) → x ≢ sep → (x == sep) ≡ false
differs x sep h = ground (arith, h)

pub split-append :
    (sep : ℕ) (xs rest : List ℕ)
    → Lacks sep xs
    → split sep (xs ++ (sep ∷ rest)) ≡ xs ∷ split sep rest
split-append sep [] rest h = let e = (==_iff sep sep).1 refl in rw e
split-append sep (x ∷ xs) rest h =
    let f = differs x sep h.0 in rw f (ap (push x) (split-append sep xs rest h.1))

pub split-one : (sep : ℕ) (xs : List ℕ) → Lacks sep xs → split sep xs ≡ xs ∷ []
split-one sep [] h = refl
split-one sep (x ∷ xs) h = let f = differs x sep h.0 in rw f (ap (push x) (split-one sep xs h.1))

no_crlf : (a b : ℕ) → a ≢ 13 → is_crlf a b ≡ false
no_crlf a b h = let f = differs a 13 h in rw f

split_crlf-step :
    (a b : ℕ) (cs : List ℕ) → a ≢ 13 → split_crlf (a ∷ b ∷ cs) ≡ push a (split_crlf (b ∷ cs))
unfolding split_crlf
split_crlf-step a b cs h =
    ap
      (λ (t : Bool). elim t as (λ _. List (List ℕ)) [
        | true ↦ [] ∷ split_crlf cs
        | false ↦ push a (split_crlf (b ∷ cs))
      ])
      (no_crlf a b h)

pub split_crlf-append :
    (xs rest : List ℕ) → Lacks 13 xs → split_crlf (xs ++ (13 ∷ (10 ∷ rest))) ≡ xs ∷ split_crlf rest
unfolding split_crlf
split_crlf-append [] rest h = refl
split_crlf-append (a ∷ []) rest h = split_crlf-step a 13 (10 ∷ rest) h.0
split_crlf-append (a ∷ b ∷ xs) rest h =
    split_crlf-step a b (xs ++ (13 ∷ (10 ∷ rest))) h.0
    ∙ ap (push a) (split_crlf-append (b ∷ xs) rest h.1)

pub split_crlf-one : (xs : List ℕ) → Lacks 13 xs → split_crlf xs ≡ xs ∷ []
unfolding split_crlf
split_crlf-one [] h = refl
split_crlf-one (a ∷ []) h = refl
split_crlf-one (a ∷ b ∷ xs) h =
    split_crlf-step a b xs h.0 ∙ ap (push a) (split_crlf-one (b ∷ xs) h.1)

pub strip_suffix-append :
    (c : ℕ) (suffix xs : List ℕ) → strip_suffix (c ∷ suffix) (xs ++ (c ∷ suffix)) ≡ some xs
unfolding strip_suffix
strip_suffix-append c suffix [] = let e = same_bytes_refl (c ∷ suffix) in rw e
strip_suffix-append c suffix (x ∷ xs) =
    let f =
      same_bytes-length (c ∷ suffix) (x ∷ xs ++ (c ∷ suffix))
        (λ e. absurd (omega (arith, e, length-append xs (c ∷ suffix)))) in
    rw f (ap (kept x) (strip_suffix-append c suffix xs))

pub all-append :
    (test : ℕ → Bool) (xs ys : List ℕ)
    → all test xs ≡ true
    → all test ys ≡ true
    → all test (xs ++ ys) ≡ true
all-append test [] ys h k = k
all-append test (x ∷ xs) ys h k =
    let t = parts (test x) (all test xs) h in rw (t.0, all-append test xs ys t.1 k)
  where
    parts : (p q : Bool) → (p && q) ≡ true → (p ≡ true) × (q ≡ true)
    parts p q h = ground arith

-- A text whose bytes pass a test has the property that the test shows.
pub all-All :
    (test : ℕ → Bool) (P : ℕ → Type 0) (xs : List ℕ)
    → ((x : ℕ) → test x ≡ true → P x)
    → all test xs ≡ true
    → All P xs
all-All test P [] f h = tt
all-All test P (x ∷ xs) f h =
    let t = parts (test x) (all test xs) h in (f x t.0, all-All test P xs f t.1)
  where
    parts : (p q : Bool) → (p && q) ≡ true → (p ≡ true) × (q ≡ true)
    parts p q h = ground arith

pub any-All :
    (test : ℕ → Bool) (P : ℕ → Type 0) (xs : List ℕ)
    → ((x : ℕ) → test x ≡ false → P x)
    → any test xs ≡ false
    → All P xs
any-All test P [] f h = tt
any-All test P (x ∷ xs) f h =
    let t = parts (test x) (any test xs) h in (f x t.0, any-All test P xs f t.1)
  where
    parts : (p q : Bool) → (p || q) ≡ false → (p ≡ false) × (q ≡ false)
    parts p q h = ground arith
