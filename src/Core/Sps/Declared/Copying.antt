-- ===== src/Core/Sps/Declared/Copying.antt =====
-- What `copy` of decode_buffer.rs adds to what the writer holds.
use mathlib.Core.Path.{subst}
use big_net_screen.Base.{
  ℕ, zero, suc, ◌+◌, ◌-◌, ◌*◌, ◌/◌, ◌%◌, ◌≤◌, ◌<◌, ◌≡◌, refl, sym, ap, ◌∙◌, Option, none, some,
  get_or, get_elem?-eq-get_or, List, [], ◌∷◌, ◌++◌, length, take, drop, get_elem?, append_assoc,
  append-nil, arith,
}
use big_net_screen.Base.Outcome.{◌>>=◌, Returns, bind-Returns}
use big_net_screen.Core.Sps.Reader.{bit_of, bit_at}
use big_net_screen.Core.Sps.Writer.{BitWriter, put, put_copied, copy_from}
use big_net_screen.Core.Sps.Writer.Content.{Holds, put-Holds}
use big_net_screen.Core.Sps.Writer.Digits.{digits_of, bits_of, length-bits_of, bit_at-bits_of}

drop-cons : (at : ℕ) (xs : List ℕ) → at < length xs → drop at xs ≡ get_or xs at 0 ∷ drop (suc at) xs
drop-cons at [] h = absurd (omega arith)
drop-cons zero (x ∷ xs) h = refl
drop-cons (suc at) (x ∷ xs) h = drop-cons at xs (omega arith)

bit_of-below : (o : Option ℕ) (k b : ℕ) → bit_of o k ≡ some b → b < 2
bit_of-below none k b e = absurd (no e)
  where
    no : {b : ℕ} → none ≡ some b → ⊥
    no e = cc
bit_of-below (some x) k b e = omega (arith, value e)
  where
    value : {x b : ℕ} → some x ≡ some b → x ≡ b
    value e = cc

bit_at-below : (bytes : List ℕ) (i b : ℕ) → bit_at bytes i ≡ some b → b < 2
unfolding bit_at
bit_at-below bytes i b e = bit_of-below (get_elem? bytes (i / 8)) (7 - i % 8) b e

pub copy_from-Holds :
    (count at : ℕ) (bytes content : List ℕ) (w : BitWriter)
    → at + count ≤ length bytes * 8
    → Holds content w
    → Returns (Holds (content ++ take count (drop at (bits_of bytes)))) (copy_from bytes at count w)
unfolding copy_from put_copied
copy_from-Holds zero at bytes content w le h = rw append-nil h
copy_from-Holds (suc count) at bytes content w le h =
    let bits = bits_of bytes in
    let low : at < length bits = omega (arith, length-bits_of bytes) in
    let b : ℕ = get_or bits at 0 in
    let e : bit_at bytes at ≡ some b =
      bit_at-bits_of bytes at ∙ get_elem?-eq-get_or bits at 0 low in
    let one : digits_of 1 b ≡ b ∷ [] =
      ap (λ (x : ℕ). x ∷ []) (omega (arith, bit_at-below bytes at b e)) in
    let after : suc at ≡ at + 1 = omega arith in
    let next : drop at bits ≡ b ∷ drop (at + 1) bits =
      drop-cons at bits low ∙ ap (λ (n : ℕ). b ∷ drop n bits) after in
    let goal : (content ++ digits_of 1 b) ++ take count (drop (at + 1) bits)
        ≡ content ++ take (suc count) (drop at bits) =
      append_assoc content (digits_of 1 b) (take count (drop (at + 1) bits))
      ∙ ap (λ (xs : List ℕ). content ++ (xs ++ take count (drop (at + 1) bits))) one
      ∙ ap (λ (xs : List ℕ). content ++ take (suc count) xs) (sym next) in
    subst (λ c. Returns (Holds c) (copy_from bytes at (suc count) w)) goal
      (subst
        (λ o.
          Returns (Holds ((content ++ digits_of 1 b) ++ take count (drop (at + 1) bits)))
            (put_copied o w >>= copy_from bytes (at + 1) count))
        (sym e)
        (bind-Returns (Holds (content ++ digits_of 1 b))
          (Holds ((content ++ digits_of 1 b) ++ take count (drop (at + 1) bits))) (put b 1 w)
          (copy_from bytes (at + 1) count) (put-Holds 1 b content w h)
          (λ w' h'.
            copy_from-Holds count (at + 1) bytes (content ++ digits_of 1 b) w' (omega arith) h')))
