-- ===== src/Wfd/Message/Chunks/Bodies.antt =====
-- `read_exact` of message.rs reads the same from every cut of the same bytes.
use mathlib.Core.Path.{subst}
use big_net_screen.Base.{
  ℕ, zero, suc, ◌+◌, ◌-◌, ◌≡◌, refl, sym, ap, ◌∙◌, true, false, List, [], ◌∷◌, ◌++◌, append-nil,
  length, length-append, take, drop, leb, if◌then◌else◌, Bool-cases, inl, inr, arith,
}
use big_net_screen.Wfd.Message.{body_cut, Read, got, failed, read_exact}
use big_net_screen.Wfd.Message.Chunks.Flat.{
  concat, IsSolid, Same, single, concat-rest_of, rest_of-IsSolid, rests,
}
use big_net_screen.Wfd.Message.Chunks.Cuts.{take-plus, drop-plus}
use big_net_screen.Wfd.Message.{◌>>=◌}

-- The bytes of a body.
abbrev pub flat_exact : ℕ → List ℕ → Read (List ℕ)
flat_exact n bytes =
    if leb n (length bytes) then got (take n bytes) (single (drop n bytes)) else failed body_cut

none_is_least : (n : ℕ) → leb 0 n ≡ true
none_is_least n = ground arith

more_than_none : (n : ℕ) → leb (suc n) 0 ≡ false
more_than_none n = ground arith

take-within : (n : ℕ) (c d : List ℕ) → leb n (length c) ≡ true → take n (c ++ d) ≡ take n c
take-within zero c d h = refl
take-within (suc n) [] d h = absurd (no n h)
  where
    no : (n : ℕ) → leb (suc n) 0 ≡ true → ⊥
    no n h = ground arith
take-within (suc n) (b ∷ c) d h = ap (λ l. b ∷ l) (take-within n c d (less n (length c) h))
  where
    less : (n m : ℕ) → leb (suc n) (suc m) ≡ true → leb n m ≡ true
    less n m h = ground arith

drop-within : (n : ℕ) (c d : List ℕ) → leb n (length c) ≡ true → drop n (c ++ d) ≡ drop n c ++ d
drop-within zero c d h = refl
drop-within (suc n) [] d h = absurd (no n h)
  where
    no : (n : ℕ) → leb (suc n) 0 ≡ true → ⊥
    no n h = ground arith
drop-within (suc n) (b ∷ c) d h = drop-within n c d (less n (length c) h)
  where
    less : (n m : ℕ) → leb (suc n) (suc m) ≡ true → leb n m ≡ true
    less n m h = ground arith

leb-more : (n m k : ℕ) → leb n m ≡ true → leb n (m + k) ≡ true
leb-more n m k h = ground arith

leb-less : (n m k : ℕ) → leb n m ≡ false → leb n (m + k) ≡ leb (n - m) k
leb-less n m k h = ground arith

after : List ℕ → Read (List ℕ) → Read (List ℕ)
after c r = r >>= λ last rest. got (c ++ last) rest

after-Same : (c : List ℕ) (r s : Read (List ℕ)) → Same r s → Same (after c r) (after c s)
unfolding after
after-Same c (got x a) (got y b) h = (ap (λ l. c ++ l) h.0, h.1, h.2, h.3)
after-Same c (failed v) (failed w) h = h
after-Same c (got x a) (failed w) h = h
after-Same c (failed v) (got y b) h = h

after-flat :
    (c d : List ℕ) (n : ℕ)
    → leb n (length c) ≡ false
    → after c (flat_exact (n - length c) d) ≡ flat_exact n (c ++ d)
unfolding after
after-flat c d n f =
    let k = n - length c in
    let test : leb n (length (c ++ d)) ≡ leb k (length d) =
      ap (leb n) (length-append c d) ∙ leb-less n (length c) (length d) f in
    let sum : n ≡ length c + k = longer n (length c) f in
    let taken : take n (c ++ d) ≡ c ++ take k d =
      ap (λ (m : ℕ). take m (c ++ d)) sum ∙ take-plus c d k in
    let dropped : drop n (c ++ d) ≡ drop k d =
      ap (λ (m : ℕ). drop m (c ++ d)) sum ∙ drop-plus c d k in
    elim (Bool-cases (leb k (length d))) [
      | inl t ↦ rw (test, t, taken, dropped) refl
      | inr g ↦ rw (test, g) refl
    ]
  where
    longer : (n m : ℕ) → leb n m ≡ false → n ≡ m + (n - m)
    longer n m h = ground arith

pub read_exact-flat :
    (n : ℕ) (cs : List (List ℕ)) → IsSolid cs → Same (read_exact n cs) (flat_exact n (concat cs))
unfolding read_exact after
read_exact-flat zero cs s = rw (none_is_least (length (concat cs))) (
  refl,
  sym (append-nil (concat cs)) ∙ sym (concat-rest_of (concat cs) []),
  s,
  rest_of-IsSolid (concat cs) [] tt,
)
read_exact-flat (suc n) [] s = rw (more_than_none n) refl
read_exact-flat (suc n) ([] ∷ cs) s = absurd (s.0 refl)
read_exact-flat (suc n) ((b ∷ bytes) ∷ cs) s =
    let c = b ∷ bytes in
    let d = concat cs in
    elim (Bool-cases (leb (suc n) (length c))) [
      | inl t ↦
          let more : leb (suc n) (length (c ++ d)) ≡ true =
            ap (leb (suc n)) (length-append c d) ∙ leb-more (suc n) (length c) (length d) t in
          rw (t, more)
            (
              sym (take-within (suc n) c d t),
              rests (drop (suc n) c) (drop (suc n) (c ++ d)) cs (drop-within (suc n) c d t),
              rest_of-IsSolid (drop (suc n) c) cs s.1,
              rest_of-IsSolid (drop (suc n) (c ++ d)) [] tt,
            )
      | inr f ↦ rw f (
          subst (Same (after c (read_exact (suc n - length c) cs))) (after-flat c d (suc n) f) (
            after-Same c (read_exact (suc n - length c) cs) (flat_exact (suc n - length c) d)
              (read_exact-flat (suc n - length c) cs s.1)))
    ]
