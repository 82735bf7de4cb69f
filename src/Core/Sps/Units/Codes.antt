-- ===== src/Core/Sps/Units/Codes.antt =====
-- Which start codes decode_buffer.rs finds in an access unit, described without its loop.
use Prim.Native.Nat.{bit_and}
use mathlib.Core.Path.{subst}
use big_net_screen.Base.{
  ℕ, zero, suc, ◌+◌, ◌-◌, ◌≤◌, ◌<◌, ◌≡◌, ◌≢◌, ◌⊎◌, inl, inr, refl, sym, ap, ◌∙◌, true, false, ◌&&◌,
  Option, none, some, List, [], ◌∷◌, ◌||◌, length, slice, take, drop, get_elem?,
  get_elem?-eq-get_or, leb, leb→le, ◌==◌, ==_iff, Bool-cases, if◌then◌else◌, arith,
}
use big_net_screen.Base.Outcome.{ok, ◌>>=◌, must, Returns, bind-Returns, elim-Returns}
use big_net_screen.Core.Sps.Units.{is_code, is_slice, code_start, starts_from, start_codes}
use big_net_screen.Core.Sps.Units.Starts.{must-slice}

-- Two zero bytes and a one.
abbrev pub CodeAt : List ℕ → ℕ → Type 0
CodeAt bytes i =
    (get_elem? bytes i ≡ some 0)
    × (get_elem? bytes (suc i) ≡ some 0)
    × (get_elem? bytes (suc (suc i)) ≡ some 1)

abbrev pub NoCode : List ℕ → ℕ → ℕ → Type 0
NoCode bytes low high = (i : ℕ) → low ≤ i → i < high → CodeAt bytes i → ⊥

-- The header of a slice of a picture: types 1 and 5.
abbrev pub IsSlice : Option ℕ → Type 0
IsSlice o =
    (header : ℕ) × (o ≡ some header) × ((bit_and header 0x1f ≡ 1) ⊎ (bit_and header 0x1f ≡ 5))

-- The code begins at `at`, or at the zero byte before it, if there is one.
abbrev pub Opens : List ℕ → ℕ → ℕ → Type 0
Opens bytes code at =
    ((suc code ≡ at) × (get_elem? bytes code ≡ some 0))
    ⊎ ((code ≡ at) × ((i : ℕ) → suc i ≡ at → get_elem? bytes i ≢ some 0))

-- From `low` on these are all start codes, up to the one in front of the first slice.
abbrev pub AllStarts : List ℕ → ℕ → List (ℕ × ℕ) → Type 0
AllStarts bytes low [] = (i : ℕ) → low ≤ i → CodeAt bytes i → ⊥
AllStarts bytes low ((code, nal) ∷ rest) =
    (at : ℕ) × (nal ≡ at + 3)
    × (low ≤ at)
    × CodeAt bytes at
    × NoCode bytes low at
    × Opens bytes code at
    × ((IsSlice (get_elem? bytes nal) × (rest ≡ []))
        ⊎ ((IsSlice (get_elem? bytes nal) → ⊥) × AllStarts bytes nal rest))

in_range : (xs : List ℕ) (i x : ℕ) → get_elem? xs i ≡ some x → i < length xs
in_range [] i x e = absurd cc
in_range (y ∷ xs) zero x e = omega arith
in_range (y ∷ xs) (suc i) x e = omega (arith, in_range xs i x e)

is_code-CodeAt : (xs : List ℕ) (i : ℕ) → is_code (take 3 (drop i xs)) ≡ true → CodeAt xs i
is_code-CodeAt [] zero e = absurd cc
is_code-CodeAt [] (suc i) e = absurd cc
is_code-CodeAt (a ∷ []) zero e = absurd cc
is_code-CodeAt (a ∷ (b ∷ [])) zero e = absurd cc
is_code-CodeAt (a ∷ (b ∷ (c ∷ xs))) zero e =
    let (x, y, z) = parts a b c e in (ap some x, ap some y, ap some z)
  where
    parts : (a b c : ℕ) → ((a == 0) && (b == 0) && (c == 1)) ≡ true → (a ≡ 0) × (b ≡ 0) × (c ≡ 1)
    parts a b c e = ground arith
is_code-CodeAt (a ∷ xs) (suc i) e = is_code-CodeAt xs i e

CodeAt-is_code : (xs : List ℕ) (i : ℕ) → CodeAt xs i → is_code (take 3 (drop i xs)) ≡ true
CodeAt-is_code [] i h = absurd cc
CodeAt-is_code (a ∷ []) zero h = absurd cc
CodeAt-is_code (a ∷ (b ∷ [])) zero h = absurd cc
CodeAt-is_code (a ∷ (b ∷ (c ∷ xs))) zero h =
    let x = some-inj h.0 in let y = some-inj h.1 in let z = some-inj h.2 in rw (x, y, z) refl
  where
    some-inj : {a b : ℕ} → some a ≡ some b → a ≡ b
    some-inj e = cc
CodeAt-is_code (a ∷ xs) (suc i) h = CodeAt-is_code xs i h

starts_picture : (o : Option ℕ) → is_slice o ≡ true → IsSlice o
starts_picture none e = absurd cc
starts_picture (some header) e = (header, refl, one_of (bit_and header 0x1f) e)
  where
    one_of : (x : ℕ) → ((x == 1) || (x == 5)) ≡ true → (x ≡ 1) ⊎ (x ≡ 5)
    one_of x e = ground arith

no_slice : (o : Option ℕ) → is_slice o ≡ false → IsSlice o → ⊥
no_slice none e (header, h, k) = cc
no_slice (some byte) e (header, h, k) = neither (bit_and byte 0x1f) e (same k)
  where
    neither : (x : ℕ) → ((x == 1) || (x == 5)) ≡ false → (x ≡ 1) ⊎ (x ≡ 5) → ⊥
    neither x e (inl k) = ground arith
    neither x e (inr k) = ground arith

    is : byte ≡ header
    is = cc

    same :
        (bit_and header 0x1f ≡ 1) ⊎ (bit_and header 0x1f ≡ 5)
        → (bit_and byte 0x1f ≡ 1) ⊎ (bit_and byte 0x1f ≡ 5)
    same (inl k) = inl (ap (λ (b : ℕ). bit_and b 0x1f) is ∙ k)
    same (inr k) = inr (ap (λ (b : ℕ). bit_and b 0x1f) is ∙ k)

code_start-Opens :
    (bytes : List ℕ) (i : ℕ)
    → i < length bytes
    → Returns (λ code. Opens bytes code i) (code_start bytes i)
unfolding code_start
code_start-Opens bytes zero h = inr (refl, λ i e. absurd (omega (arith, e)))
code_start-Opens bytes (suc i) h = by_byte (get_elem? bytes i) refl
  where
    below : get_elem? bytes i ≡ none → ⊥
    below e = none_some (sym e ∙ get_elem?-eq-get_or bytes i 0 (omega arith))
      where
        none_some : {b : ℕ} → none ≡ some b → ⊥
        none_some e = cc

    other :
        (before j : ℕ)
        → (before == 0) ≡ false
        → get_elem? bytes i ≡ some before
        → suc j ≡ suc i
        → get_elem? bytes j ≡ some 0
        → ⊥
    other before j f e same z = zero_too before f (sym e ∙ ap (get_elem? bytes) (back same) ∙ z)
      where
        back : suc j ≡ suc i → i ≡ j
        back same = omega arith

        zero_too : (b : ℕ) → (b == 0) ≡ false → some b ≡ some 0 → ⊥
        zero_too b f e = nope b f (value e)
          where
            value : some b ≡ some 0 → b ≡ 0
            value e = cc

            nope : (b : ℕ) → (b == 0) ≡ false → b ≡ 0 → ⊥
            nope b f e = ground arith

    by_byte :
        (o : Option ℕ)
        → get_elem? bytes i ≡ o
        → Returns
            (λ code. Opens bytes code (suc i))
            (must o >>= λ before. ok (if before == 0 then i else suc i))
    by_byte none e = absurd (below e)
    by_byte (some before) e = elim (Bool-cases (before == 0)) [
      | inl t ↦ rw t (inl (refl, e ∙ ap some ((==_iff before 0).0 t)))
      | inr f ↦ rw f (inr (refl, λ j same z. other before j f e same z))
    ]

no_code :
    (bytes : List ℕ) (low i : ℕ)
    → NoCode bytes low i
    → (CodeAt bytes i → ⊥)
    → NoCode bytes low (i + 1)
no_code bytes low i clear here j l h c = elim (cases_le i j h) [
  | inl less ↦ clear j l less c
  | inr same ↦ here (subst (CodeAt bytes) same c)
]
  where
    cases_le : (i j : ℕ) → j < i + 1 → (j < i) ⊎ (j ≡ i)
    cases_le i j h = ground arith

past_end :
    (bytes : List ℕ) (low i : ℕ)
    → leb (i + 3) (length bytes) ≡ false
    → NoCode bytes low i
    → AllStarts bytes low []
past_end bytes low i f clear j l c =
    clear j l (short (length bytes) i j f (in_range bytes (suc (suc j)) 1 c.2)) c
  where
    short : (n i j : ℕ) → leb (i + 3) n ≡ false → suc (suc j) < n → j < i
    short n i j f h = ground arith

starts_from-AllStarts :
    (fuel : ℕ) (bytes : List ℕ) (low i : ℕ)
    → length bytes - i < fuel
    → low ≤ i
    → NoCode bytes low i
    → Returns (AllStarts bytes low) (starts_from fuel bytes i)
unfolding starts_from
starts_from-AllStarts zero bytes low i f le clear = absurd (omega arith)
starts_from-AllStarts (suc fuel) bytes low i f le clear =
    elim-Returns (AllStarts bytes low) (leb (i + 3) (length bytes)) _ (ok [])
      (λ t.
        let room = leb→le _ _ t in
        bind-Returns (λ three. three ≡ take (i + 3 - i) (drop i bytes)) (AllStarts bytes low)
          (must (slice bytes i (i + 3))) _ (must-slice bytes i (i + 3) (omega arith) room)
          (λ three e.
            let read : is_code three ≡ is_code (take 3 (drop i bytes)) =
              ap is_code e ∙ ap (λ (n : ℕ). is_code (take n (drop i bytes))) (three_bytes i) in
            elim-Returns (AllStarts bytes low) (is_code three) _ (starts_from fuel bytes (i + 1))
              (λ c.
                let here = is_code-CodeAt bytes i (sym read ∙ c) in
                bind-Returns (λ code. Opens bytes code i) (AllStarts bytes low) (code_start bytes i)
                  _ (code_start-Opens bytes i (omega arith))
                  (λ code opens.
                    elim-Returns (AllStarts bytes low) (is_slice (get_elem? bytes (i + 3))) _ _
                      (λ s. (i, refl, le, here, clear, opens, inl (starts_picture _ s, refl)))
                      (λ n.
                        bind-Returns (AllStarts bytes (i + 3)) (AllStarts bytes low)
                          (starts_from fuel bytes (i + 3)) _
                          (starts_from-AllStarts fuel bytes (i + 3) (i + 3) (omega arith)
                            (omega arith) (λ j l h c. absurd (omega (arith, l, h))))
                          (λ rest r. (i, refl, le, here, clear, opens, inr (no_slice _ n, r))))))
              (λ n.
                starts_from-AllStarts fuel bytes low (i + 1) (omega arith) (omega arith)
                  (no_code bytes low i clear (λ c. no (sym n ∙ read ∙ CodeAt-is_code bytes i c))))))
      (λ f. past_end bytes low i f clear)
  where
    no : false ≡ true → ⊥
    no e = cc

    three_bytes : (i : ℕ) → i + 3 - i ≡ 3
    three_bytes i = omega arith

pub start_codes-AllStarts : (bytes : List ℕ) → Returns (AllStarts bytes 0) (start_codes bytes)
unfolding start_codes
start_codes-AllStarts bytes =
    starts_from-AllStarts (suc (length bytes)) bytes 0 0 (omega arith) (omega arith)
      (λ j l h c. absurd (omega (arith, h)))
