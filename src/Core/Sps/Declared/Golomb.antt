-- ===== src/Core/Sps/Declared/Golomb.antt =====
-- The Exp-Golomb codes of decode_buffer.rs.
use big_net_screen.Base.{
  ℕ, zero, suc, ◌+◌, ◌-◌, ◌*◌, ◌/◌, ◌%◌, ◌^◌, ◌≤◌, ◌<◌, ◌≡◌, ◌⊎◌, inl, inr, refl, ap, ap₂, ◌∙◌,
  false, List, [], ◌∷◌, ◌++◌, replicate, arith, ◌==◌, ==_iff, Bool-cases,
}
use big_net_screen.Core.Sps.Writer.{bit_length}
use big_net_screen.Core.Sps.Writer.Digits.{digits_of}

-- An Exp-Golomb code: the number in binary, behind a zero for each of its bits but one.
abbrev pub IsGolomb : ℕ → List ℕ → Type 0
IsGolomb code bits =
    ((code ≡ 0) × (bits ≡ []))
    ⊎ ((k : ℕ) × (2 ^ k ≤ code)
        × (code < 2 * 2 ^ k)
        × (bits ≡ replicate k 0 ++ digits_of (suc k) code))

abbrev pub golomb_of : ℕ → List ℕ
golomb_of value =
    let code = (value + 1) % 2 ^ 32 in
    let size = bit_length 32 code in digits_of (size - 1) 0 ++ digits_of size code

zeros : (k : ℕ) → digits_of k 0 ≡ replicate k 0
zeros zero = refl
zeros (suc k) = ap₂ (λ (x : ℕ) xs. x ∷ xs) (omega arith) (zeros k)

-- The number of bits of a number.
IsSize : ℕ → ℕ → Type 0
IsSize n size = ((n ≡ 0) × (size ≡ 0)) ⊎ ((k : ℕ) × (size ≡ suc k) × (2 ^ k ≤ n) × (n < 2 * 2 ^ k))

double : (k : ℕ) → 2 ^ suc k ≡ 2 * 2 ^ k
double k = omega arith

IsSize-half : (n size : ℕ) → (n == 0) ≡ false → IsSize (n / 2) size → IsSize n (suc size)
unfolding IsSize
IsSize-half n size f (inl (z, e)) =
    let one : n ≡ 1 = single n f z in inr (0, ap suc e, omega (arith, one), omega (arith, one))
  where
    single : (n : ℕ) → (n == 0) ≡ false → n / 2 ≡ 0 → n ≡ 1
    single n f z = ground arith
IsSize-half n size f (inr (k, e, low, high)) =
    inr (suc k, ap suc e, omega (arith, double k), omega (arith, double k))

bit_length-IsSize : (rounds n : ℕ) → n < 2 ^ rounds → IsSize n (bit_length rounds n)
unfolding bit_length IsSize
bit_length-IsSize zero n h = inl (omega arith, refl)
bit_length-IsSize (suc rounds) n h = elim (Bool-cases (n == 0)) [
  | inl t ↦ rw t (inl ((==_iff n 0).0 t, refl))
  | inr f ↦
      rw f (IsSize-half n _ f (bit_length-IsSize rounds (n / 2) (omega (arith, double rounds))))
]

pub golomb_of-IsGolomb : (value : ℕ) → IsGolomb ((value + 1) % 2 ^ 32) (golomb_of value)
unfolding IsSize
golomb_of-IsGolomb value =
    let code = (value + 1) % 2 ^ 32 in
    by_size code (bit_length 32 code) (bit_length-IsSize 32 code (omega arith))
  where
    by_size :
        (code size : ℕ)
        → IsSize code size
        → IsGolomb code (digits_of (size - 1) 0 ++ digits_of size code)
    by_size code size (inl (z, e)) = inl (z, rw e refl)
    by_size code size (inr (k, e, low, high)) =
        let back : size - 1 ≡ k = omega arith in
        inr (
          k,
          low,
          high,
          ap₂ (λ (m n : ℕ). digits_of m 0 ++ digits_of n code) back e
              ∙ ap (λ xs. xs ++ digits_of (suc k) code) (zeros k),
        )
