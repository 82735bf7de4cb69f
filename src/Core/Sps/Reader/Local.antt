-- ===== src/Core/Sps/Reader/Local.antt =====
-- What a step of the bit reader depends on: the bits before the place that it stops at.
use mathlib.Core.Path.{subst}
use big_net_screen.Base.{
  ℕ, zero, suc, ◌+◌, ◌-◌, ◌*◌, ◌/◌, ◌%◌, ◌^◌, ◌≤◌, ◌<◌, ◌≡◌, refl, sym, ap, ◌∙◌, Bool, true, false,
  none, some, List, [], ◌∷◌, length, get_elem?, leb, le→leb, leb→le, ◌==◌, if◌then◌else◌, arith,
  Option-cases, Bool-cases, inl, inr,
}
use big_net_screen.Base.Outcome.{Outcome, ok, invalid, fault}
use big_net_screen.Core.Sps.Reader.{
  BitReader, Read, then_read, ◌>>=◌, ◌>>◌, pure, give_up, bit_at, bit, flag, read_from, read, skip,
  leading, ue, se,
}

abbrev pub from : List ℕ → ℕ → BitReader
from bytes at = record { data_bytes = bytes; at = at }

-- The bits before `n` are the same, and both have them.
pub record Agrees (n : ℕ) (d d' : List ℕ) : Type 0 where
  pub there : n ≤ length d' * 8
  pub same : (i : ℕ) → i < n → bit_at d' i ≡ bit_at d i

pub Agrees-le : (m n : ℕ) (d d' : List ℕ) → m ≤ n → Agrees n d d' → Agrees m d d'
Agrees-le m n d d' le a = record {
  there = omega (arith, a.there);
  same = λ i h. a.same i (omega arith);
}

abbrev pub Stays : {A : Type 0} → Read A → List ℕ → ℕ → Outcome (A × BitReader) → Type 0
Stays m d i (ok (a, r)) =
    (r ≡ from d r.at)
    × (i ≤ r.at)
    × (r.at ≤ length d * 8)
    × ((d' : List ℕ) → Agrees r.at d d' → m (from d' i) ≡ ok (a, from d' r.at))
Stays m d i invalid = Unit
Stays m d i fault = ⊥

-- The step never panics. Where it returns, it has moved on, and on other bytes that agree up to
-- there it returns the same.
pub record IsLocal {A : Type 0} (m : Read A) : Type 0 where
  pub stays : (d : List ℕ) (i : ℕ) → i ≤ length d * 8 → Stays m d i (m (from d i))

pub pure-IsLocal : {A : Type 0} (a : A) → IsLocal (pure a)
pure-IsLocal a = record { stays = λ d i h. (refl, omega arith, h, λ d' a. refl) }

pub give_up-IsLocal : (A : Type 0) → IsLocal (give_up {A = A})
give_up-IsLocal A = record { stays = λ d i h. tt }

module _ {A B : Type 0} (m : Read A) (f : A → Read B) where
  glue :
      (d : List ℕ) (i : ℕ) (a : A) (r : BitReader) (o : Outcome (B × BitReader))
      → Stays m d i (ok (a, r))
      → Stays (f a) d r.at o
      → Stays (m >>= f) d i o
  unfolding ◌>>=◌
  glue d i a r (ok (b, r2)) s t = (
    t.0,
    omega (arith, s.1, t.1),
    t.2,
    λ d' g. ap (λ o. then_read o f) (s.3 d' (Agrees-le r.at r2.at d d' t.1 g)) ∙ t.3 d' g,
  )
  glue d i a r invalid s t = tt
  glue d i a r fault s t = t

  after :
      (d : List ℕ) (i : ℕ) (o : Outcome (A × BitReader))
      → Stays m d i o
      → ((a : A) → IsLocal (f a))
      → Stays (m >>= f) d i (then_read o f)
  after d i (ok (a, r)) s k =
      glue d i a r (f a r) s
        (subst (λ t. Stays (f a) d r.at (f a t)) (sym s.0) ((k a).stays d r.at s.2))
  after d i invalid s k = tt
  after d i fault s k = s

  pub bind-IsLocal : IsLocal m → ((a : A) → IsLocal (f a)) → IsLocal (m >>= f)
  unfolding ◌>>=◌
  bind-IsLocal h k = record { stays = λ d i le. after d i (m (from d i)) (h.stays d i le) k }

pub seq-IsLocal :
    {B : Type 0} (m : Read (Unit {0})) (k : Read B) → IsLocal m → IsLocal k → IsLocal (m >> k)
unfolding ◌>>◌ ◌>>=◌
seq-IsLocal m k h g = let b = bind-IsLocal m (λ _. k) h (λ _. g) in record { stays = b.stays }

pub elim-IsLocal :
    {A : Type 0} (b : Bool) (m n : Read A) → IsLocal m → IsLocal n → IsLocal (if b then m else n)
elim-IsLocal true m n h g = h
elim-IsLocal false m n h g = g

get_elem?-some : (d : List ℕ) (i x : ℕ) → get_elem? d i ≡ some x → i < length d
get_elem?-some [] i x e = absurd (none_some e)
  where
    none_some : {b : ℕ} → none ≡ some b → ⊥
    none_some e = cc
get_elem?-some (y ∷ d) zero x e = omega arith
get_elem?-some (y ∷ d) (suc i) x e = omega (arith, get_elem?-some d i x e)

pub bit_at-some : (d : List ℕ) (i b : ℕ) → bit_at d i ≡ some b → i + 1 ≤ length d * 8
unfolding bit_at
bit_at-some d i b e = elim (Option-cases (get_elem? d (i / 8))) [
  | inl n ↦ absurd (none_some (rw (n, bit_at) at e))
  | inr (x, s) ↦ omega (arith, get_elem?-some d (i / 8) x s)
]
  where
    none_some : {b : ℕ} → none ≡ some b → ⊥
    none_some e = cc

bit-Stays : (d : List ℕ) (i : ℕ) → Stays bit d i (bit (from d i))
unfolding bit
bit-Stays d i = elim (Option-cases (bit_at d i)) [
  | inl e ↦ rw e tt
  | inr (b, e) ↦
      rw e (refl, omega arith, bit_at-some d i b e, λ d' g. rw (g.same i (omega arith) ∙ e))
]

pub bit-IsLocal : IsLocal bit
bit-IsLocal = record { stays = λ d i le. bit-Stays d i }

skip-Stays : (n : ℕ) (d : List ℕ) (i : ℕ) → Stays (skip n) d i (skip n (from d i))
unfolding skip
skip-Stays n d i = elim (Bool-cases (leb (i + n) (length d * 8))) [
  | inl e ↦ rw e (refl, omega arith, leb→le _ _ e, λ d' g. rw (le→leb _ _ g.there))
  | inr e ↦ rw e tt
]

pub skip-IsLocal : (n : ℕ) → IsLocal (skip n)
skip-IsLocal n = record { stays = λ d i le. skip-Stays n d i }

pub flag-IsLocal : IsLocal flag
unfolding flag
flag-IsLocal = bind-IsLocal bit _ bit-IsLocal (λ b. pure-IsLocal (b == 1))

pub read_from-IsLocal : (n v : ℕ) → IsLocal (read_from n v)
unfolding read_from
read_from-IsLocal zero v = pure-IsLocal v
read_from-IsLocal (suc n) v =
    bind-IsLocal bit _ bit-IsLocal (λ b. read_from-IsLocal n (v * 2 % 2 ^ 32 + b))

leading-IsLocal : (n seen : ℕ) → IsLocal (leading n seen)
unfolding leading
leading-IsLocal zero seen = give_up-IsLocal ℕ
leading-IsLocal (suc n) seen = bind-IsLocal bit _ bit-IsLocal (λ b.
    elim-IsLocal (b == 0) (leading n (seen + 1)) (pure seen) (leading-IsLocal n (seen + 1))
      (pure-IsLocal seen))

pub ue-IsLocal : IsLocal ue
unfolding ue
ue-IsLocal =
    bind-IsLocal (leading 32 0) _ (leading-IsLocal 32 0)
      (λ z. bind-IsLocal (read z) _ (read_from-IsLocal z 0) (λ low. pure-IsLocal (2 ^ z - 1 + low)))

pub se-IsLocal : IsLocal se
unfolding se
se-IsLocal = bind-IsLocal ue _ ue-IsLocal (λ code. pure-IsLocal _)
