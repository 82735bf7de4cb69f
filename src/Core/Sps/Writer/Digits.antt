-- ===== src/Core/Sps/Writer/Digits.antt =====
-- Bytes of decode_buffer.rs as lists of bits.
use Prim.Native.Nat.{bit_or}
use big_net_screen.Base.{
  ℕ, zero, suc, ◌+◌, ◌-◌, ◌*◌, ◌/◌, ◌%◌, ◌^◌, ◌≤◌, ◌<◌, ◌≡◌, refl, sym, ap, ap₂, ◌∙◌, Bool, true,
  false, ◌&&◌, List, [], ◌∷◌, ◌++◌, length, get_elem?, replicate, take, drop, ◌==◌, ltb,
  if◌then◌else◌, arith, ==_iff, ltb→lt,
}
use big_net_screen.Base.Bits.{passes, passes-below}
use big_net_screen.Core.Sps.Reader.{bit_of, bit_at}

-- The lowest `count` bits of a number, the highest of them first.
abbrev pub digits_of : ℕ → ℕ → List ℕ
digits_of zero value = []
digits_of (suc count) value = (value / 2 ^ count % 2) ∷ digits_of count value

abbrev pub bits_of : List ℕ → List ℕ
bits_of [] = []
bits_of (b ∷ bs) = digits_of 8 b ++ bits_of bs

pub length-bits_of : (bytes : List ℕ) → length (bits_of bytes) ≡ length bytes * 8
length-bits_of [] = omega arith
length-bits_of (b ∷ bs) = omega (arith, length-bits_of bs)

bit_at-cons : (b i : ℕ) (bs : List ℕ) → bit_at (b ∷ bs) (8 + i) ≡ bit_at bs i
unfolding bit_at
bit_at-cons b i bs =
    let e : (8 + i) / 8 ≡ suc (i / 8) = omega arith in
    let f : (8 + i) % 8 ≡ i % 8 = omega arith in
    ap₂ (λ (q r : ℕ). bit_of (get_elem? (b ∷ bs) q) (7 - r)) e f

-- Bit by bit, the bytes are the list of their bits.
pub bit_at-bits_of : (bytes : List ℕ) (i : ℕ) → bit_at bytes i ≡ get_elem? (bits_of bytes) i
unfolding bit_at
bit_at-bits_of [] i = refl
bit_at-bits_of (b ∷ bs) zero = refl
bit_at-bits_of (b ∷ bs) (suc zero) = refl
bit_at-bits_of (b ∷ bs) (suc (suc zero)) = refl
bit_at-bits_of (b ∷ bs) (suc (suc (suc zero))) = refl
bit_at-bits_of (b ∷ bs) (suc (suc (suc (suc zero)))) = refl
bit_at-bits_of (b ∷ bs) (suc (suc (suc (suc (suc zero))))) = refl
bit_at-bits_of (b ∷ bs) (suc (suc (suc (suc (suc (suc zero)))))) = refl
bit_at-bits_of (b ∷ bs) (suc (suc (suc (suc (suc (suc (suc zero))))))) = refl
bit_at-bits_of (b ∷ bs) (suc (suc (suc (suc (suc (suc (suc (suc i)))))))) =
    ap (bit_at (b ∷ bs)) (sym (eight i)) ∙ bit_at-cons b i bs ∙ bit_at-bits_of bs i
  where
    eight : (i : ℕ) → 8 + i ≡ suc (suc (suc (suc (suc (suc (suc (suc i)))))))
    eight i = omega arith

eq_bits : List ℕ → List ℕ → Bool
eq_bits [] [] = true
eq_bits (x ∷ xs) (y ∷ ys) = (x == y) && eq_bits xs ys
eq_bits _ _ = false

eq_bits-eq : (xs ys : List ℕ) → eq_bits xs ys ≡ true → xs ≡ ys
unfolding eq_bits
eq_bits-eq [] [] h = refl
eq_bits-eq [] (y ∷ ys) h = cc
eq_bits-eq (x ∷ xs) [] h = cc
eq_bits-eq (x ∷ xs) (y ∷ ys) h =
    let t = both (x == y) (eq_bits xs ys) h in
    let e = (==_iff x y).0 t.0 in let f = eq_bits-eq xs ys t.1 in cc (e, f)
  where
    both : (p q : Bool) → (p && q) ≡ true → (p ≡ true) × (q ≡ true)
    both p q h = ground arith

eq_bits_refl : (xs : List ℕ) → eq_bits xs xs ≡ true
unfolding eq_bits
eq_bits_refl [] = refl
eq_bits_refl (x ∷ xs) = let e = eq_bits_refl xs in let f = (==_iff x x).1 refl in rw (f, e)

-- A one at the first zero of the padding of a byte.
fits_one : ℕ → ℕ → Bool
unfolding eq_bits
fits_one p b =
    if eq_bits (drop (7 - p) (digits_of 8 b)) (replicate (suc p) 0)
    then (ltb (bit_or b (2 ^ p)) 256
        && eq_bits (digits_of 8 (bit_or b (2 ^ p)))
            (take (7 - p) (digits_of 8 b) ++ (1 ∷ replicate p 0)))
    else true

fits_table : passes (λ p. passes (fits_one p) 256) 8 ≡ true
unfolding passes fits_one
fits_table = refl

pub fits_one_lem :
    (p b : ℕ)
    → p < 8
    → b < 256
    → drop (7 - p) (digits_of 8 b) ≡ replicate (suc p) 0
    → (bit_or b (2 ^ p) < 256)
      × (digits_of 8 (bit_or b (2 ^ p)) ≡ take (7 - p) (digits_of 8 b) ++ (1 ∷ replicate p 0))
unfolding fits_one
fits_one_lem p b hp hb e =
    let t =
      passes-below (fits_one p) 256 b hb
        (passes-below (λ (p : ℕ). passes (fits_one p) 256) 8 p hp fits_table) in
    let q : eq_bits (drop (7 - p) (digits_of 8 b)) (replicate (suc p) 0) ≡ true =
      rw e (eq_bits_refl (replicate (suc p) 0)) in
    let u = implied _ _ _ t q in (ltb→lt _ _ u.0, eq_bits-eq _ _ u.1)
  where
    implied :
        (t u v : Bool) → (if t then (u && v) else true) ≡ true → t ≡ true → (u ≡ true) × (v ≡ true)
    implied t u v h k = ground arith

pub drop-left : (n : ℕ) (xs ys : List ℕ) → n ≤ length xs → drop n (xs ++ ys) ≡ drop n xs ++ ys
drop-left zero xs ys h = refl
drop-left (suc n) [] ys h = absurd (omega arith)
drop-left (suc n) (x ∷ xs) ys h = drop-left n xs ys (omega arith)

pub take-left : (n : ℕ) (xs ys : List ℕ) → n ≤ length xs → take n (xs ++ ys) ≡ take n xs
take-left zero xs ys h = refl
take-left (suc n) [] ys h = absurd (omega arith)
take-left (suc n) (x ∷ xs) ys h = ap (λ t. x ∷ t) (take-left n xs ys (omega arith))
