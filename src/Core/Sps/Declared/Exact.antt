-- ===== src/Core/Sps/Declared/Exact.antt =====
-- The bits that decode_buffer.rs writes for the restriction.
use mathlib.Core.Path.{subst}
use big_net_screen.Base.{
  ℕ, zero, suc, ◌<◌, ◌+◌, ◌-◌, ◌%◌, ◌^◌, max, ◌≤◌, ◌≡◌, refl, ap, ◌∙◌, false, List, [], ◌∷◌, ◌++◌,
  replicate, append_assoc, append-nil, length-append, arith, ◌==◌, ==_iff,
}
use big_net_screen.Base.Outcome.{
  Outcome, ok, ◌>>=◌, Returns, bind-Returns, map-Returns, elim-Returns,
}
use big_net_screen.Core.Sps.{restrict}
use big_net_screen.Core.Sps.Writer.{BitWriter, put, put_ue, bit_length, align, trailing_bits}
use big_net_screen.Core.Sps.Writer.Content.{Holds, counts, put-Holds}
use big_net_screen.Core.Sps.Writer.Digits.{bits_of, digits_of}
use big_net_screen.Core.Sps.Declared.Golomb.{IsGolomb, golomb_of, golomb_of-IsGolomb}

-- The flags of the restriction and of motion vectors over the boundaries, then in Exp-Golomb codes
-- 2, 1, 15 and 15, no picture to reorder, and these bits for the pictures to hold.
abbrev pub restriction : List ℕ → List ℕ
restriction refs =
    1 ∷ 1 ∷ (0 ∷ 1 ∷ 1 ∷ [])
    ++ ((0 ∷ 1 ∷ 0 ∷ [])
        ++ ((0 ∷ 0 ∷ 0 ∷ 0 ∷ 1 ∷ 0 ∷ 0 ∷ 0 ∷ 0 ∷ [])
            ++ ((0 ∷ 0 ∷ 0 ∷ 0 ∷ 1 ∷ 0 ∷ 0 ∷ 0 ∷ 0 ∷ []) ++ (1 ∷ refs))))

put_ue-Holds :
    (value : ℕ) (content : List ℕ) (w : BitWriter)
    → Holds content w
    → Returns (Holds (content ++ golomb_of value)) (put_ue value w)
unfolding put_ue
put_ue-Holds value content w h =
    let code = (value + 1) % 2 ^ 32 in
    let size = bit_length 32 code in
    let start = digits_of (size - 1) 0 in
    bind-Returns (Holds (content ++ start)) (Holds (content ++ (start ++ digits_of size code)))
      (put 0 (size - 1) w) (put code size) (put-Holds (size - 1) 0 content w h)
      (λ w' h'.
        subst (λ c. Returns (Holds c) (put code size w'))
          (append_assoc content start (digits_of size code))
          (put-Holds size code (content ++ start) w' h'))

-- A step after others.
after :
    (content more : List ℕ) (m : Outcome BitWriter) (f : BitWriter → Outcome BitWriter)
    → Returns (Holds content) m
    → ((w : BitWriter) → Holds content w → Returns (Holds (content ++ more)) (f w))
    → Returns (Holds (content ++ more)) (m >>= f)
after content more m f h k = bind-Returns (Holds content) (Holds (content ++ more)) m f h k

-- What is held, then zeros up to the end of a byte.
record Aligned (rounds : ℕ) (content : List ℕ) (w : BitWriter) : Type 0 where
  fill : ℕ
  few : fill ≤ rounds
  holds : Holds (content ++ replicate fill 0) w
  whole : w.bits % 8 ≡ 0

one_zero_more :
    (rounds : ℕ) (content : List ℕ) (w : BitWriter)
    → Aligned rounds (content ++ (0 ∷ [])) w
    → Aligned (suc rounds) content w
one_zero_more rounds content w a = record {
  fill = suc a.fill;
  few = omega (arith, a.few);
  holds = subst (λ c. Holds c w) (append_assoc content (0 ∷ []) (replicate a.fill 0)) a.holds;
  whole = a.whole;
}

nothing_more :
    (rounds : ℕ) (content : List ℕ) (w : BitWriter)
    → w.bits % 8 ≡ 0
    → Holds content w
    → Aligned rounds content w
nothing_more rounds content w z h = record {
  fill = 0;
  few = omega arith;
  holds = rw append-nil h;
  whole = z;
}

align-Aligned :
    (rounds : ℕ) (content : List ℕ) (w : BitWriter)
    → (8 - w.bits % 8) % 8 ≤ rounds
    → Holds content w
    → Returns (Aligned rounds content) (align rounds w)
unfolding align
align-Aligned zero content w le h =
    let z : w.bits % 8 ≡ 0 = omega arith in
    rw ((==_iff (w.bits % 8) 0).1 z) (nothing_more zero content w z h)
align-Aligned (suc rounds) content w le h =
    elim-Returns (Aligned (suc rounds) content) (w.bits % 8 == 0) (ok w)
      (put 0 1 w >>= align rounds)
      (λ t. nothing_more (suc rounds) content w ((==_iff (w.bits % 8) 0).0 t) h)
      (λ f.
        bind-Returns (Holds (content ++ (0 ∷ []))) (Aligned (suc rounds) content) (put 0 1 w)
          (align rounds) (put-Holds 1 0 content w h)
          (λ w' h'.
            map-Returns (Aligned rounds (content ++ (0 ∷ []))) (Aligned (suc rounds) content)
              (align rounds w') (λ x a. one_zero_more rounds content x a)
              (align-Aligned rounds (content ++ (0 ∷ [])) w'
                (fewer w.bits w'.bits rounds f
                  (omega (arith, h.counted, h'.counted, length-append content (0 ∷ []))) le)
                h')))
  where
    fewer :
        (bits bits' rounds : ℕ)
        → (bits % 8 == 0) ≡ false
        → bits' ≡ bits + 1
        → (8 - bits % 8) % 8 ≤ suc rounds
        → (8 - bits' % 8) % 8 ≤ rounds
    fewer bits bits' rounds f e le = ground arith

laid :
    (content refs : List ℕ)
    → ((((((((content ++ (1 ∷ [])) ++ (1 ∷ [])) ++ (0 ∷ 1 ∷ 1 ∷ [])) ++ (0 ∷ 1 ∷ 0 ∷ []))
                ++ (0 ∷ 0 ∷ 0 ∷ 0 ∷ 1 ∷ 0 ∷ 0 ∷ 0 ∷ 0 ∷ []))
              ++ (0 ∷ 0 ∷ 0 ∷ 0 ∷ 1 ∷ 0 ∷ 0 ∷ 0 ∷ 0 ∷ []))
            ++ (1 ∷ []))
          ++ refs)
        ++ (1 ∷ [])
      ≡ content ++ (restriction refs ++ (1 ∷ []))
laid content refs = simp append_assoc refl

-- The restriction for these bits, the stop bit, and zeros.
abbrev pub finished : List ℕ → ℕ → List ℕ
finished refs fill = restriction refs ++ (1 ∷ replicate fill 0)

pub record Restricted (refs : ℕ) (content : List ℕ) (w : BitWriter) : Type 0 where
  pub code : List ℕ
  pub golomb : IsGolomb ((max refs 1 + 1) % 2 ^ 32) code
  pub fill : ℕ
  pub few : fill < 8
  pub written : bits_of w.bytes ≡ content ++ finished code fill

put_as :
    (value : ℕ) (bits content : List ℕ) (w : BitWriter)
    → golomb_of value ≡ bits
    → Holds content w
    → Returns (Holds (content ++ bits)) (put_ue value w)
put_as value bits content w e h =
    subst (λ bits. Returns (Holds (content ++ bits)) (put_ue value w)) e
      (put_ue-Holds value content w h)

golomb_of_0 : golomb_of 0 ≡ 1 ∷ []
unfolding bit_length
golomb_of_0 = refl

golomb_of_1 : golomb_of 1 ≡ 0 ∷ 1 ∷ 0 ∷ []
unfolding bit_length
golomb_of_1 = refl

golomb_of_2 : golomb_of 2 ≡ 0 ∷ 1 ∷ 1 ∷ []
unfolding bit_length
golomb_of_2 = refl

golomb_of_15 : golomb_of 15 ≡ 0 ∷ 0 ∷ 0 ∷ 0 ∷ 1 ∷ 0 ∷ 0 ∷ 0 ∷ 0 ∷ []
unfolding bit_length
golomb_of_15 = refl

trailing_bits-Aligned :
    (content : List ℕ) (w : BitWriter)
    → Holds content w
    → Returns (Aligned 7 (content ++ (1 ∷ []))) (trailing_bits w)
unfolding trailing_bits
trailing_bits-Aligned content w h =
    bind-Returns (Holds (content ++ (1 ∷ []))) (Aligned 7 (content ++ (1 ∷ []))) (put 1 1 w)
      (align 7) (put-Holds 1 1 content w h)
      (λ w' h'. align-Aligned 7 (content ++ (1 ∷ [])) w' (omega arith) h')

-- Whole bytes have no padding.
unpadded :
    (content : List ℕ) (w : BitWriter)
    → Holds content w
    → w.bits % 8 ≡ 0
    → bits_of w.bytes ≡ content
unpadded content w h z =
    let none_left : h.pad ≡ 0 = omega (arith, counts content w h, h.short, z) in
    h.written ∙ ap (λ (n : ℕ). content ++ replicate n 0) none_left ∙ append-nil content

with_stop_bit :
    (refs : ℕ) (content : List ℕ) (w : BitWriter)
    → Aligned 7 (content ++ (restriction (golomb_of (max refs 1)) ++ (1 ∷ []))) w
    → Restricted refs content w
with_stop_bit refs content w a =
    let code = golomb_of (max refs 1) in
    record {
      code = code;
      golomb = golomb_of-IsGolomb (max refs 1);
      fill = a.fill;
      few = omega (arith, a.few);
      written =
          unpadded _ w a.holds a.whole
          ∙ append_assoc content (restriction code ++ (1 ∷ [])) (replicate a.fill 0)
          ∙ ap (λ c. content ++ c) (append_assoc (restriction code) (1 ∷ []) (replicate a.fill 0));
    }

pub restrict-Restricted :
    (refs : ℕ) (content : List ℕ) (w : BitWriter)
    → Holds content w
    → Returns (Restricted refs content) (restrict refs w)
unfolding restrict
restrict-Restricted refs content w h =
    let code = golomb_of (max refs 1) in
    let fifteen : List ℕ = (0 ∷ 0 ∷ 0 ∷ 0 ∷ 1 ∷ 0 ∷ 0 ∷ 0 ∷ 0 ∷ []) in
    let c1 = (content ++ (1 ∷ [])) in
    let c2 = (c1 ++ (1 ∷ [])) in
    let c3 = (c2 ++ (0 ∷ 1 ∷ 1 ∷ [])) in
    let c4 = (c3 ++ (0 ∷ 1 ∷ 0 ∷ [])) in
    let c5 = (c4 ++ fifteen) in
    let c6 = (c5 ++ fifteen) in
    let c7 = (c6 ++ (1 ∷ [])) in
    let c8 = (c7 ++ code) in
    let s2 = after c1 (1 ∷ []) _ (put 1 1) (put-Holds 1 1 content w h) (put-Holds 1 1 c1) in
    let s3 = after c2 _ _ (put_ue 2) s2 (λ w. put_as 2 _ c2 w golomb_of_2) in
    let s4 = after c3 _ _ (put_ue 1) s3 (λ w. put_as 1 _ c3 w golomb_of_1) in
    let s5 = after c4 _ _ (put_ue 15) s4 (λ w. put_as 15 _ c4 w golomb_of_15) in
    let s6 = after c5 _ _ (put_ue 15) s5 (λ w. put_as 15 _ c5 w golomb_of_15) in
    let s7 = after c6 _ _ (put_ue 0) s6 (λ w. put_as 0 _ c6 w golomb_of_0) in
    let s8 = after c7 code _ (put_ue (max refs 1)) s7 (put_ue-Holds (max refs 1) c7) in
    bind-Returns (Holds c8) (Restricted refs content) _ trailing_bits s8 (λ w h.
      map-Returns (Aligned 7 (c8 ++ (1 ∷ []))) (Restricted refs content) (trailing_bits w)
        (λ w' a. with_stop_bit refs content w' (subst (λ c. Aligned 7 c w') (laid content code) a))
        (trailing_bits-Aligned c8 w h))
