-- ===== src/Core/Secret.antt =====
-- `same_secret` of crates/nd-core/src/secret.rs.
mod Tests
use Prim.Native.Nat.{bit_or, bit_xor}
use mathlib.Core.Path.{subst}
use big_net_screen.Base.{
  ℕ, suc, ◌<◌, ◌≡◌, ◌≢◌, ◌↔◌, refl, ap, ap₂, sym, ◌∙◌, Bool, true, false, ◌&&◌, List, [], ◌∷◌, All,
  length, arith, ◌==◌, ==_iff, ltb, ltb→lt, if◌then◌else◌,
}
use big_net_screen.Base.Bits.{passes, passes-below}
use big_net_screen.Base.Bytes.{IsByte}

-- The fold over the pairs of bytes that both have.
abbrev pub difference_from : ℕ → List ℕ → List ℕ → ℕ
difference_from difference [] secret = difference
difference_from difference (a ∷ guess) [] = difference
difference_from difference (a ∷ guess) (b ∷ secret) =
    difference_from (bit_or difference (bit_xor a b)) guess secret

unfoldable pub same_secret : List ℕ → List ℕ → Bool
same_secret guess secret = (length guess == length secret) && (difference_from 0 guess secret == 0)

-- Of two bytes: `|` is zero only when both are, and `^` when they are equal.
or_test : ℕ → ℕ → Bool
or_test x y = ltb (bit_or x y) 256 && (if bit_or x y == 0 then (x == 0) && (y == 0) else true)

xor_test : ℕ → ℕ → Bool
xor_test x y = ltb (bit_xor x y) 256 && (if bit_xor x y == 0 then x == y else true)

or_table : passes (λ x. passes (or_test x) 256) 256 ≡ true
unfolding passes or_test
or_table = refl

xor_table : passes (λ x. passes (xor_test x) 256) 256 ≡ true
unfolding passes xor_test
xor_table = refl

read_test :
    (v : ℕ) (c : Bool)
    → (ltb v 256 && (if v == 0 then c else true)) ≡ true
    → (v < 256) × (v ≡ 0 → c ≡ true)
read_test v true h = (ground arith, λ e. refl)
read_test v false h = (ground arith, λ e. absurd (ground arith))

or_bytes : (x y : ℕ) → x < 256 → y < 256 → (bit_or x y < 256) × (bit_or x y ≡ 0 → (x ≡ 0) × (y ≡ 0))
unfolding or_test
or_bytes x y hx hy =
    let t : or_test x y ≡ true =
      passes-below (or_test x) 256 y hy
        (passes-below (λ x. passes (or_test x) 256) 256 x hx or_table) in
    let r = read_test (bit_or x y) ((x == 0) && (y == 0)) t in (r.0, λ e. zeros x y (r.1 e))
  where
    zeros : (x y : ℕ) → ((x == 0) && (y == 0)) ≡ true → (x ≡ 0) × (y ≡ 0)
    zeros x y h = ground arith

xor_bytes : (x y : ℕ) → x < 256 → y < 256 → (bit_xor x y < 256) × (bit_xor x y ≡ 0 → x ≡ y)
unfolding xor_test
xor_bytes x y hx hy =
    let t : xor_test x y ≡ true =
      passes-below (xor_test x) 256 y hy
        (passes-below (λ x. passes (xor_test x) 256) 256 x hx xor_table) in
    let r = read_test (bit_xor x y) (x == y) t in (r.0, λ e. (==_iff x y).0 (r.1 e))

xor_self : (x : ℕ) → x < 256 → bit_xor x x ≡ 0
unfolding passes
xor_self x h = (==_iff _ _).0 (passes-below (λ x. bit_xor x x == 0) 256 x h refl)

no_difference :
    (d : ℕ) (guess secret : List ℕ)
    → d < 256
    → All IsByte guess
    → All IsByte secret
    → difference_from d guess secret ≡ 0
    → (d ≡ 0) × (length guess ≡ length secret → guess ≡ secret)
no_difference d [] [] hd hg hs e = (e, λ n. refl)
no_difference d [] (b ∷ secret) hd hg hs e = (e, λ n. absurd (omega arith))
no_difference d (a ∷ guess) [] hd hg hs e = (e, λ n. absurd (omega arith))
no_difference d (a ∷ guess) (b ∷ secret) hd hg hs e =
    let x = xor_bytes a b hg.0 hs.0 in
    let o = or_bytes d (bit_xor a b) hd x.0 in
    let rest = no_difference (bit_or d (bit_xor a b)) guess secret o.0 hg.1 hs.1 e in
    let z = o.1 rest.0 in (z.0, λ n. ap₂ (λ b bs. b ∷ bs) (x.1 z.1) (rest.1 (omega arith)))

same-no_difference : (guess : List ℕ) → All IsByte guess → difference_from 0 guess guess ≡ 0
same-no_difference [] h = refl
same-no_difference (a ∷ guess) h =
    ap (λ (d : ℕ). difference_from (bit_or 0 d) guess guess) (xor_self a h.0)
    ∙ same-no_difference guess h.1

-- The comparison that does not stop at the first difference is equality.
pub same_secret_iff :
    (guess secret : List ℕ)
    → All IsByte guess
    → All IsByte secret
    → (same_secret guess secret ≡ true) ↔ (guess ≡ secret)
unfolding same_secret
same_secret_iff guess secret hg hs = (
  λ e. let t = parts _ _ e in (no_difference 0 guess secret (omega arith) hg hs t.1).1 t.0,
  λ e. subst (λ s. same_secret guess s ≡ true) e (same guess hg),
)
  where
    parts : (m n : ℕ) {d : ℕ} → ((m == n) && (d == 0)) ≡ true → (m ≡ n) × (d ≡ 0)
    parts m n h = ground arith

    same : (guess : List ℕ) → All IsByte guess → same_secret guess guess ≡ true
    same guess h =
        let e = same-no_difference guess h in
        let n = (==_iff (length guess) (length guess)).1 refl in rw (n, e)
