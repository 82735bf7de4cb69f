-- ===== src/Core/Sps/Units/Starts.antt =====
-- The start codes of an access unit lie in it one after the other.
use big_net_screen.Base.{
  ℕ, zero, suc, ◌+◌, ◌-◌, ◌≤◌, ◌<◌, ◌≡◌, ◌≢◌, ◌⊎◌, inl, inr, refl, sym, ap, ◌∙◌, true, List, [],
  ◌∷◌, length, slice, slice_in_range, take, drop, get_elem?, get_or, get_or-drop, get_or-take, leb,
  leb→le, ◌==◌, if◌then◌else◌, arith,
}
use big_net_screen.Base.Outcome.{ok, must, Returns, bind-Returns, elim-Returns, must_byte}
use big_net_screen.Core.Sps.Units.{is_code, is_slice, code_start, starts_from, start_codes}

-- From `low` on: each code ends where its unit begins, and the next one is no earlier.
abbrev pub IsStarts : List ℕ → ℕ → List (ℕ × ℕ) → Type 0
IsStarts bytes low [] = low ≤ length bytes
IsStarts bytes low ((code, nal) ∷ starts) =
    (low ≤ code) × (code ≤ nal) × (nal ≤ length bytes) × IsStarts bytes nal starts

-- `low` is before `i`, or at it after a byte that is no zero.
Behind : List ℕ → ℕ → ℕ → Type 0
Behind bytes low i = (low < i) ⊎ ((low ≡ i) × (i ≡ 0 ⊎ (get_or bytes (i - 1) 0 ≢ 0)))

at_or :
    (bytes : List ℕ) (low i : ℕ)
    → Behind bytes low (suc i)
    → (low ≤ i) ⊎ ((low ≡ suc i) × (get_or bytes i 0 ≢ 0))
unfolding Behind
at_or bytes low i (inl l) = inl (omega arith)
at_or bytes low i (inr (e, inl z)) = absurd (omega arith)
at_or bytes low i (inr (e, inr n)) =
    let back : suc i - 1 ≡ i = omega arith in
    inr (e, λ z. n (ap (λ (k : ℕ). get_or bytes k 0) back ∙ z))

chosen :
    {low i : ℕ} (byte before : ℕ)
    → before ≡ byte
    → (low ≤ i) ⊎ ((low ≡ suc i) × (byte ≢ 0))
    → (low ≤ (if before == 0 then i else suc i)) × ((if before == 0 then i else suc i) ≤ suc i)
chosen byte before e (inl l) = ground arith
chosen byte before e (inr (l, n)) = ground (arith, n)

code_start-Behind :
    (bytes : List ℕ) (low i : ℕ)
    → i < length bytes
    → Behind bytes low i
    → Returns (λ code. (low ≤ code) × (code ≤ i)) (code_start bytes i)
unfolding code_start Behind
code_start-Behind bytes low zero h b = elim b [ inl l ↦ omega arith | inr (e, z) ↦ omega arith ]
code_start-Behind bytes low (suc i) h b =
    bind-Returns (λ x. x ≡ get_or bytes i 0) (λ code. (low ≤ code) × (code ≤ suc i))
      (must (get_elem? bytes i)) (λ before. ok (if before == 0 then i else suc i))
      (must_byte bytes i (omega arith))
      (λ before e. chosen (get_or bytes i 0) before e (at_or bytes low i b))

last_of_code : (xs : List ℕ) → is_code xs ≡ true → get_or xs 2 0 ≡ 1
last_of_code [] e = cc
last_of_code (a ∷ []) e = cc
last_of_code (a ∷ b ∷ []) e = cc
last_of_code (a ∷ b ∷ c ∷ []) e = ground arith
last_of_code (a ∷ b ∷ c ∷ d ∷ xs) e = cc

after_code :
    (bytes : List ℕ) (i : ℕ) (three : List ℕ)
    → three ≡ take (i + 3 - i) (drop i bytes)
    → is_code three ≡ true
    → Behind bytes (i + 3) (i + 3)
unfolding Behind
after_code bytes i three e c =
    let last : get_or bytes (i + 2) 0 ≡ 1 =
      sym (get_or-drop i 2 bytes 0)
      ∙ sym (get_or-take (i + 3 - i) 2 (drop i bytes) 0 (omega arith))
      ∙ ap (λ xs. get_or xs 2 0) (sym e)
      ∙ last_of_code three c in
    let place : i + 3 - 1 ≡ i + 2 = omega arith in
    inr (
      refl,
      inr (λ z. absurd (omega (arith, last, sym (ap (λ (n : ℕ). get_or bytes n 0) place) ∙ z))),
    )

pub must-slice :
    (xs : List ℕ) (start end : ℕ)
    → start ≤ end
    → end ≤ length xs
    → Returns (λ ys. ys ≡ take (end - start) (drop start xs)) (must (slice xs start end))
must-slice xs start end h k = rw (slice_in_range xs start end h k)

moved : (bytes : List ℕ) (low i : ℕ) → Behind bytes low i → Behind bytes low (i + 1)
unfolding Behind
moved bytes low i (inl l) = inl (omega arith)
moved bytes low i (inr (e, z)) = inl (omega arith)

starts_from-IsStarts :
    (fuel : ℕ) (bytes : List ℕ) (low i : ℕ)
    → length bytes - i < fuel
    → low ≤ length bytes
    → Behind bytes low i
    → Returns (IsStarts bytes low) (starts_from fuel bytes i)
unfolding starts_from
starts_from-IsStarts zero bytes low i f le b = absurd (omega arith)
starts_from-IsStarts (suc fuel) bytes low i f le b =
    elim-Returns (IsStarts bytes low) (leb (i + 3) (length bytes)) _ (ok [])
      (λ t.
        let room = leb→le _ _ t in
        bind-Returns (λ three. three ≡ take (i + 3 - i) (drop i bytes)) (IsStarts bytes low)
          (must (slice bytes i (i + 3))) _ (must-slice bytes i (i + 3) (omega arith) room)
          (λ three e.
            elim-Returns (IsStarts bytes low) (is_code three) _ (starts_from fuel bytes (i + 1))
              (λ c.
                bind-Returns (λ code. (low ≤ code) × (code ≤ i)) (IsStarts bytes low)
                  (code_start bytes i) _ (code_start-Behind bytes low i (omega arith) b)
                  (λ code k.
                    elim-Returns (IsStarts bytes low) (is_slice (get_elem? bytes (i + 3))) _ _
                      (λ _. (k.0, omega (arith, k.1), room, room))
                      (λ _.
                        bind-Returns (IsStarts bytes (i + 3)) (IsStarts bytes low)
                          (starts_from fuel bytes (i + 3)) _
                          (starts_from-IsStarts fuel bytes (i + 3) (i + 3) (omega arith) room
                            (after_code bytes i three e c))
                          (λ rest r. (k.0, omega (arith, k.1), room, r)))))
              (λ _.
                starts_from-IsStarts fuel bytes low (i + 1) (omega arith) le
                  (moved bytes low i b))))
      (λ _. le)

-- `start_codes` returns on every access unit.
pub start_codes-IsStarts : (bytes : List ℕ) → Returns (IsStarts bytes 0) (start_codes bytes)
unfolding start_codes Behind
start_codes-IsStarts bytes =
    starts_from-IsStarts (suc (length bytes)) bytes 0 0 (omega arith) (omega arith)
      (inr (refl, inl refl))
