-- ===== src/Core/Sps/Declared.antt =====
-- What `with_decode_buffer` of decode_buffer.rs writes.
pub mod Copying
pub mod Golomb
pub mod Exact
use mathlib.Core.Path.{subst}
use big_net_screen.Base.{
  ℕ, zero, suc, ◌+◌, ◌-◌, ◌*◌, ◌/◌, ◌%◌, ◌^◌, max, ◌≤◌, ◌<◌, ◌≡◌, refl, sym, ap, ◌∙◌, Bool, true,
  false, Option, none, some, get_or, get_elem?-eq-get_or, List, [], ◌∷◌, ◌++◌, length, length-take,
  replicate, take, drop, get_elem?, append_assoc, append-nil, length-append, arith, ◌==◌,
  if◌then◌else◌, ==_iff,
}
use big_net_screen.Base.Outcome.{
  Outcome, ok, invalid, fault, ◌>>=◌, Returns, Safe, bind-Returns, map-Returns, elim-Returns,
}
use big_net_screen.Core.Sps.{begin, restrict, declare, rewritten, with_decode_buffer}
use big_net_screen.Core.Sps.Escape.{
  escape_from, unescape_from, unescape-escape, IsQuiet, escape-IsQuiet,
}
use big_net_screen.Core.Sps.Reader.{BitReader, bit_of, bit_at}
use big_net_screen.Core.Sps.Reader.Local.{from, Agrees}
use big_net_screen.Core.Sps.Scan.{Survey, survey}
use big_net_screen.Core.Sps.Scan.Again.{Follows, marks, Surveyed, survey-Surveyed}
use big_net_screen.Core.Sps.Writer.{
  BitWriter, empty, put, put_copied, copy_from, put_ue, bit_length, align, trailing_bits,
}
use big_net_screen.Core.Sps.Writer.Content.{Holds, put-Holds, empty-Holds}
use big_net_screen.Core.Sps.Writer.Digits.{digits_of, bits_of, length-bits_of, bit_at-bits_of}
use big_net_screen.Core.Sps.Declared.Copying.{copy_from-Holds}
use big_net_screen.Core.Sps.Declared.Golomb.{IsGolomb}
use big_net_screen.Core.Sps.Declared.Exact.{finished, Restricted, restrict-Restricted}

-- The bits that are copied, and the VUI that is put where there is none.
abbrev pub begun : List ℕ → Survey → List ℕ
begun rbsp s =
    take s.copied (bits_of rbsp)
    ++ (if s.has_vui then [] else 1 ∷ 0 ∷ 0 ∷ 0 ∷ 0 ∷ 0 ∷ 0 ∷ 0 ∷ 0 ∷ [])

presence :
    (rbsp : List ℕ) (s : Survey) (w : BitWriter) (h : Holds (take s.copied (bits_of rbsp)) w)
    (has : Bool)
    → Returns
        (Holds (
          take s.copied (bits_of rbsp)
          ++ (if has then [] else 1 ∷ 0 ∷ 0 ∷ 0 ∷ 0 ∷ 0 ∷ 0 ∷ 0 ∷ 0 ∷ [])))
        (if has then ok w else put 1 1 w >>= put 0 8)
presence rbsp s w h true = rw append-nil h
presence rbsp s w h false =
    let c = take s.copied (bits_of rbsp) in
    bind-Returns (Holds (c ++ (1 ∷ []))) (Holds (c ++ (1 ∷ 0 ∷ 0 ∷ 0 ∷ 0 ∷ 0 ∷ 0 ∷ 0 ∷ 0 ∷ [])))
      (put 1 1 w) (put 0 8) (put-Holds 1 1 c w h)
      (λ w' h'.
        subst (λ c. Returns (Holds c) (put 0 8 w')) (append_assoc c (1 ∷ []) _)
          (put-Holds 8 0 (c ++ (1 ∷ [])) w' h'))

begin-Holds :
    (rbsp : List ℕ) (s : Survey)
    → s.copied ≤ length rbsp * 8
    → Returns (Holds (begun rbsp s)) (begin rbsp s)
unfolding begin
begin-Holds rbsp s le =
    let c = take s.copied (bits_of rbsp) in
    bind-Returns (Holds c) (Holds (begun rbsp s)) (copy_from rbsp 0 s.copied empty)
      (λ w. if s.has_vui then ok w else put 1 1 w >>= put 0 8)
      (copy_from-Holds s.copied 0 rbsp [] empty (omega arith) empty-Holds)
      (λ w h. presence rbsp s w h s.has_vui)

get_elem?-left : (xs ys : List ℕ) (i : ℕ) → i < length xs → get_elem? (xs ++ ys) i ≡ get_elem? xs i
get_elem?-left [] ys i h = absurd (omega arith)
get_elem?-left (x ∷ xs) ys zero h = refl
get_elem?-left (x ∷ xs) ys (suc i) h = get_elem?-left xs ys i (omega arith)

get_elem?-take : (n i : ℕ) (xs : List ℕ) → i < n → get_elem? (take n xs) i ≡ get_elem? xs i
get_elem?-take zero i xs h = absurd (omega arith)
get_elem?-take (suc n) i [] h = refl
get_elem?-take (suc n) zero (x ∷ xs) h = refl
get_elem?-take (suc n) (suc i) (x ∷ xs) h = get_elem?-take n i xs (omega arith)

get_elem?-middle :
    (xs : List ℕ) (b : ℕ) (ys : List ℕ) → get_elem? (xs ++ (b ∷ ys)) (length xs) ≡ some b
get_elem?-middle [] b ys = refl
get_elem?-middle (x ∷ xs) b ys = get_elem?-middle xs b ys

Follows-bits :
    (d xs bs ys : List ℕ) (i : ℕ) → i ≡ length xs → bits_of d ≡ xs ++ (bs ++ ys) → Follows d i bs
Follows-bits d xs [] ys i n e = tt
Follows-bits d xs (b ∷ bs) ys i n e = (
  bit_at-bits_of d i
      ∙ ap (λ l. get_elem? l i) e
      ∙ ap (get_elem? (xs ++ (b ∷ (bs ++ ys)))) n
      ∙ get_elem?-middle xs b (bs ++ ys),
  Follows-bits d (xs ++ (b ∷ [])) bs ys (i + 1) (omega (arith, n, length-append xs (b ∷ [])))
      (e ∙ sym (append_assoc xs (b ∷ []) (bs ++ ys))),
)

Agrees-bits :
    (d d' ys : List ℕ) (n : ℕ)
    → n ≤ length d * 8
    → bits_of d' ≡ take n (bits_of d) ++ ys
    → Agrees n d d'
Agrees-bits d d' ys n le e =
    let count : length (take n (bits_of d)) ≡ n =
      omega (arith, length-take n (bits_of d), length-bits_of d) in
    record {
      there = omega (arith, length-bits_of d', ap length e, length-append (take n (bits_of d)) ys);
      same = λ i h.
          bit_at-bits_of d' i
          ∙ ap (λ l. get_elem? l i) e
          ∙ get_elem?-left (take n (bits_of d)) ys i (omega arith)
          ∙ get_elem?-take n i (bits_of d) h
          ∙ sym (bit_at-bits_of d i);
    }

lay :
    (front more : List ℕ) (has : Bool)
    → (front ++ (if has then [] else 1 ∷ 0 ∷ 0 ∷ 0 ∷ 0 ∷ 0 ∷ 0 ∷ 0 ∷ 0 ∷ [])) ++ (1 ∷ more)
      ≡ front ++ (marks has ++ more)
lay front more true = simp append-nil refl
lay front more false = simp append_assoc refl

-- The survey of what is written gives up.
written-IsInvalid :
    (rbsp : List ℕ) (s : Survey) (w : BitWriter) (r : BitReader)
    → Surveyed rbsp (ok (s, r))
    → Restricted s.max_num_ref_frames (begun rbsp s) w
    → survey (from w.bytes 0) ≡ invalid
written-IsInvalid rbsp s w r (le, again) x =
    let front = take s.copied (bits_of rbsp) in
    let rest = drop 1 (finished x.code x.fill) in
    let e : bits_of w.bytes ≡ front ++ (marks s.has_vui ++ rest) =
      x.written ∙ lay front rest s.has_vui in
    again w.bytes (Agrees-bits rbsp w.bytes (marks s.has_vui ++ rest) s.copied le e) (
      Follows-bits w.bytes front (marks s.has_vui) rest s.copied
        (omega (arith, length-take s.copied (bits_of rbsp), length-bits_of rbsp)) e)

declare-Restricted :
    (rbsp : List ℕ) (s : Survey)
    → s.copied ≤ length rbsp * 8
    → Returns (Restricted s.max_num_ref_frames (begun rbsp s)) (declare rbsp s)
unfolding declare
declare-Restricted rbsp s le =
    bind-Returns (Holds (begun rbsp s)) (Restricted s.max_num_ref_frames (begun rbsp s))
      (begin rbsp s) (restrict s.max_num_ref_frames) (begin-Holds rbsp s le)
      (λ w h. restrict-Restricted s.max_num_ref_frames (begun rbsp s) w h)

again-IsInvalid :
    (header : ℕ) (bytes : List ℕ)
    → survey (from bytes 0) ≡ invalid
    → with_decode_buffer (header ∷ escape_from 0 bytes) ≡ invalid
unfolding with_decode_buffer
again-IsInvalid header bytes e =
    ap (λ rbsp. survey (from rbsp 0) >>= rewritten header rbsp) (unescape-escape bytes)
    ∙ ap (λ o. o >>= rewritten header bytes) e

-- The bits written for a payload: those copied, a VUI where there was none, the restriction with the
-- larger of the reference frames of the survey and 1, a stop bit, and zeros to the end of the byte.
pub record Declares (rbsp written : List ℕ) : Type 0 where
  pub found : Survey
  pub left : BitReader
  pub surveyed : survey (from rbsp 0) ≡ ok (found, left)
  pub code : List ℕ
  pub golomb : IsGolomb ((max found.max_num_ref_frames 1 + 1) % 2 ^ 32) code
  pub fill : ℕ
  pub few : fill < 8
  pub bits : bits_of written ≡ begun rbsp found ++ finished code fill

-- An SPS that needs no rewriting, with the header byte, no start code in its payload, and the
-- restriction behind the bits of the old one.
abbrev pub Settled : ℕ → List ℕ → List ℕ → Type 0
Settled header escaped out =
    (with_decode_buffer out ≡ invalid)
    × (get_elem? out 0 ≡ some header)
    × IsQuiet 0 (drop 1 out)
    × Declares (unescape_from 0 escaped) (unescape_from 0 (drop 1 out))

Returns-Safe :
    (P : BitWriter → Type 0) (Q : List ℕ → Type 0) (m : Outcome BitWriter) (f : BitWriter → List ℕ)
    → Returns P m
    → ((w : BitWriter) → P w → Q (f w))
    → Safe Q (m >>= λ w. ok (f w))
Returns-Safe P Q (ok w) f h k = k w h
Returns-Safe P Q invalid f h k = tt
Returns-Safe P Q fault f h k = h

rewritten-Settled :
    (header : ℕ) (escaped : List ℕ) (o : Outcome (Survey × BitReader))
    → survey (from (unescape_from 0 escaped) 0) ≡ o
    → Surveyed (unescape_from 0 escaped) o
    → Safe (Settled header escaped) (o >>= rewritten header (unescape_from 0 escaped))
unfolding rewritten
rewritten-Settled header escaped (ok (s, r)) found h =
    let rbsp = unescape_from 0 escaped in
    Returns-Safe (Restricted s.max_num_ref_frames (begun rbsp s)) (Settled header escaped)
      (declare rbsp s) (λ w. header ∷ escape_from 0 w.bytes) (declare-Restricted rbsp s h.0)
      (λ w x. (
        again-IsInvalid header w.bytes (written-IsInvalid rbsp s w r h x),
        refl,
        escape-IsQuiet w.bytes,
        record {
          found = s;
          left = r;
          surveyed = found;
          code = x.code;
          golomb = x.golomb;
          fill = x.fill;
          few = x.few;
          bits = ap bits_of (unescape-escape w.bytes) ∙ x.written;
        },
      ))
rewritten-Settled header escaped invalid found h = tt
rewritten-Settled header escaped fault found h = h

-- Whatever the bytes of an SPS are, `with_decode_buffer` does not panic. Where it rewrites the SPS,
-- the header byte stays, the new payload holds no start code, and its bits are those that the survey
-- copies, a VUI with nothing else where there was none, the flag of the restriction, motion vectors
-- over the boundaries, 2, 1, 15, 15, no reordering, the larger of the reference frames of the survey
-- and 1 (plus one, modulo 2^32, as an Exp-Golomb code), a stop bit and at most seven zeros. A second rewriting
-- leaves the result alone.
pub with_decode_buffer-Settled :
    (header : ℕ) (escaped : List ℕ)
    → Safe (Settled header escaped) (with_decode_buffer (header ∷ escaped))
unfolding with_decode_buffer
with_decode_buffer-Settled header escaped =
    rewritten-Settled header escaped (survey (from (unescape_from 0 escaped) 0)) refl
      (survey-Surveyed (unescape_from 0 escaped))
