-- ===== src/Core/Sps/Writer/Content.antt =====
-- The bits that a `BitWriter` of decode_buffer.rs holds.
use Prim.Native.Nat.{bit_or}
use mathlib.Core.Path.{subst}
use big_net_screen.Base.{
  ℕ, zero, suc, ◌+◌, ◌-◌, ◌*◌, ◌/◌, ◌%◌, ◌^◌, ◌≤◌, ◌<◌, ◌≡◌, refl, sym, ap, ap₂, ◌∙◌, true, Option,
  none, some, List, [], ◌∷◌, ◌++◌, append_assoc, append-nil, length, length-append,
  length-replicate, replicate, take, drop, All-append, take-append, drop-append, take-append-drop,
  All, ◌==◌, if◌then◌else◌, arith, Bool-cases, inl, inr, ==_iff,
}
use big_net_screen.Base.Bits.{passes, passes-below}
use big_net_screen.Base.Outcome.{Outcome, fault, Returns}
use big_net_screen.Core.Sps.Writer.{BitWriter, empty, stored, room, or_last, put_bit, put}
use big_net_screen.Core.Sps.Writer.Digits.{
  digits_of, bits_of, length-bits_of, fits_one_lem, drop-left, take-left,
}

-- The writer holds `content`, and the rest of its last byte is zeros.
pub record Holds (content : List ℕ) (w : BitWriter) : Type 0 where
  pub pad : ℕ
  pub short : pad < 8
  pub counted : w.bits ≡ length content
  pub written : bits_of w.bytes ≡ content ++ replicate pad 0
  pub are_bytes : All (λ b. b < 256) w.bytes

pub empty-Holds : Holds [] empty
empty-Holds = record {
  pad = 0;
  short = omega arith;
  counted = refl;
  written = refl;
  are_bytes = tt;
}

-- What a one at the first zero of the padding makes of the bytes.
Marked : ℕ → List ℕ → List ℕ → Type 0
Marked p content bytes =
    (bytes' : List ℕ) × (or_last (2 ^ p) bytes ≡ some bytes')
    × (bits_of bytes' ≡ content ++ (1 ∷ replicate p 0))
    × All (λ b. b < 256) bytes'

or_last-Marked :
    (bytes content : List ℕ) (p : ℕ)
    → p < 8
    → All (λ b. b < 256) bytes
    → bits_of bytes ≡ content ++ replicate (suc p) 0
    → Marked p content bytes
unfolding Marked or_last
or_last-Marked [] content p hp bs e =
    absurd (omega (arith, ap length e, length-append content (replicate (suc p) 0)))
or_last-Marked (b ∷ []) content p hp bs e =
    let full : digits_of 8 b ≡ content ++ replicate (suc p) 0 = e in
    let n : 7 - p ≡ length content = omega (
      arith,
      ap length full,
      length-append content (replicate (suc p) 0),
      length-replicate {A = ℕ} (suc p) 0,
    ) in
    let d : drop (7 - p) (digits_of 8 b) ≡ replicate (suc p) 0 =
      rw (n, full) (drop-append content _) in
    let t : take (7 - p) (digits_of 8 b) ≡ content = rw (n, full) (take-append content _) in
    let m = fits_one_lem p b hp bs.0 d in
    (bit_or b (2 ^ p) ∷ [], refl, m.1 ∙ ap (λ s. s ++ (1 ∷ replicate p 0)) t, (m.0, tt))
or_last-Marked (b ∷ c ∷ bytes) content p hp bs e =
    let n : 8 ≤ length content = omega (
      arith,
      ap length e,
      length-append content (replicate (suc p) 0),
      length-replicate {A = ℕ} (suc p) 0,
      length-bits_of bytes,
    ) in
    let d : bits_of (c ∷ bytes) ≡ drop 8 content ++ replicate (suc p) 0 =
      ap (drop 8) e ∙ drop-left 8 content (replicate (suc p) 0) n in
    let t : digits_of 8 b ≡ take 8 content =
      ap (take 8) e ∙ take-left 8 content (replicate (suc p) 0) n in
    let m = or_last-Marked (c ∷ bytes) (drop 8 content) p hp bs.1 d in
    (
      b ∷ m.0,
      rw m.1,
      ap₂ (λ x y. x ++ y) t m.2
          ∙ sym (append_assoc (take 8 content) (drop 8 content) (1 ∷ replicate p 0))
          ∙ ap (λ s. s ++ (1 ∷ replicate p 0)) (take-append-drop 8 content),
      (bs.0, m.3),
    )

bits_of-append : (xs ys : List ℕ) → bits_of (xs ++ ys) ≡ bits_of xs ++ bits_of ys
bits_of-append [] ys = refl
bits_of-append (x ∷ xs) ys =
    ap (λ t. digits_of 8 x ++ t) (bits_of-append xs ys)
    ∙ sym (append_assoc (digits_of 8 x) (bits_of xs) (bits_of ys))

mask_table : passes (λ k. 0x80 / 2 ^ k == 2 ^ (7 - k)) 8 ≡ true
unfolding passes
mask_table = refl

mask : (k : ℕ) → k < 8 → 0x80 / 2 ^ k ≡ 2 ^ (7 - k)
mask k h = (==_iff _ _).0 (passes-below (λ (k : ℕ). 0x80 / 2 ^ k == 2 ^ (7 - k)) 8 k h mask_table)

pub counts :
    (content : List ℕ) (w : BitWriter) (h : Holds content w) → w.bits + h.pad ≡ length w.bytes * 8
counts content w h = omega (
  arith,
  h.counted,
  ap length h.written,
  length-append content (replicate h.pad 0),
  length-replicate {A = ℕ} h.pad 0,
  length-bits_of w.bytes,
)

pad-eq : (n b p : ℕ) → b + p ≡ n * 8 → p < 8 → p ≡ (if b % 8 == 0 then 0 else suc (7 - b % 8))
pad-eq n b p e h = ground arith

Roomy : List ℕ → ℕ → List ℕ → Type 0
Roomy content p bytes = (bits_of bytes ≡ content ++ replicate (suc p) 0) × All (λ b. b < 256) bytes

room-Roomy :
    (content : List ℕ) (w : BitWriter) → Holds content w → Roomy content (7 - w.bits % 8) (room w)
unfolding Roomy
room-Roomy content w h =
    let e = pad-eq (length w.bytes) w.bits h.pad (counts content w h) h.short in
    elim (Bool-cases (w.bits % 8 == 0)) [
      | inl t ↦
          let z : w.bits % 8 ≡ 0 = (==_iff _ _).0 t in
          let p : h.pad ≡ 0 = rw t at e in
          rw (z) (
            bits_of-append w.bytes (0 ∷ [])
                ∙ ap (λ s. s ++ replicate 8 0)
                    (h.written ∙ ap (λ (n : ℕ). content ++ replicate n 0) p ∙ append-nil content),
            All-append (λ b. b < 256) w.bytes (0 ∷ []) h.are_bytes (omega arith, tt),
          )
      | inr f ↦
          let p : h.pad ≡ suc (7 - w.bits % 8) = rw f at e in
          rw f (h.written ∙ ap (λ (n : ℕ). content ++ replicate n 0) p, h.are_bytes)
    ]

-- What writing the bit `b` after `content` gives.
abbrev pub Wrote : List ℕ → Option BitWriter → Type 0
Wrote content none = ⊥
Wrote content (some w) = Holds content w

holding :
    (content : List ℕ) (b p n : ℕ) (bytes : List ℕ)
    → p < 8
    → n ≡ length content
    → bits_of bytes ≡ content ++ (b ∷ replicate p 0)
    → All (λ b. b < 256) bytes
    → Holds (content ++ (b ∷ [])) record { bytes = bytes; bits = n + 1 }
holding content b p n bytes hp hn e all = record {
  pad = p;
  short = hp;
  counted = omega (arith, hn, length-append content (b ∷ []));
  written = e ∙ sym (append_assoc content (b ∷ []) (replicate p 0));
  are_bytes = all;
}

pub put_bit-Wrote :
    (content : List ℕ) (b : ℕ) (w : BitWriter)
    → b < 2
    → Holds content w
    → Wrote (content ++ (b ∷ [])) (put_bit b w)
unfolding put_bit Roomy Marked
put_bit-Wrote content zero w hb h =
    let r = room-Roomy content w h in
    holding content 0 (7 - w.bits % 8) w.bits (room w) (omega arith) h.counted r.0 r.1
put_bit-Wrote content (suc zero) w hb h =
    let r = room-Roomy content w h in
    let m = or_last-Marked (room w) content (7 - w.bits % 8) (omega arith) r.1 r.0 in
    subst (λ o. Wrote (content ++ (1 ∷ [])) (stored (w.bits + 1) o))
      (sym (ap (λ (k : ℕ). or_last k (room w)) (mask (w.bits % 8) (omega arith)) ∙ m.1))
      (holding content 1 (7 - w.bits % 8) w.bits m.0 (omega arith) h.counted m.2 m.3)
put_bit-Wrote content (suc (suc b)) w hb h = absurd (omega arith)

put_after :
    (content : List ℕ) (o : Option BitWriter) (f : BitWriter → Outcome BitWriter) (more : List ℕ)
    → Wrote content o
    → ((w : BitWriter) → Holds content w → Returns (Holds (content ++ more)) (f w))
    → Returns (Holds (content ++ more)) (elim o [ none ↦ fault | some w ↦ f w ])
put_after content none f more h k = absurd h
put_after content (some w) f more h k = k w h

-- The writer takes the lowest `count` bits of a value, the highest first, and never panics.
pub put-Holds :
    (count value : ℕ) (content : List ℕ) (w : BitWriter)
    → Holds content w
    → Returns (Holds (content ++ digits_of count value)) (put value count w)
unfolding put
put-Holds zero value content w h = rw append-nil h
put-Holds (suc count) value content w h =
    let b = value / 2 ^ count % 2 in
    subst (λ c. Returns (Holds c) (put value (suc count) w))
      (append_assoc content (b ∷ []) (digits_of count value))
      (put_after (content ++ (b ∷ [])) (put_bit b w) (put value count) (digits_of count value)
        (put_bit-Wrote content b w (omega arith) h)
        (λ w' h'. put-Holds count value (content ++ (b ∷ [])) w' h'))
