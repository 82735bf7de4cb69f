-- ===== src/Wfd/Message/Chunks/Cuts.antt =====
-- The end of a line in message.rs, in bytes that come in two parts.
use big_net_screen.Base.{
  ℕ, suc, ◌+◌, ◌-◌, ◌≤◌, ◌≡◌, refl, ap, ◌∙◌, true, false, List, [], ◌∷◌, ◌++◌, length, take, drop,
  ◌==◌, Bool-cases, inl, inr, arith,
}
use big_net_screen.Wfd.Message.{max_line_bytes, line_end, ends_line, too_long}

pub record Ended (c d : List ℕ) : Type 0 where
  pub count : line_end (c ++ d) ≡ line_end c
  pub ends : ends_line (c ++ d) ≡ true
  pub taken : take (line_end c) (c ++ d) ≡ take (line_end c) c
  pub dropped : drop (line_end c) (c ++ d) ≡ drop (line_end c) c ++ d

pub ended : (c d : List ℕ) → ends_line c ≡ true → Ended c d
ended [] d h = absurd (differ h)
  where
    differ : false ≡ true → ⊥
    differ e = cc
ended (b ∷ c) d h = elim (Bool-cases (b == 10)) [
  | inl t ↦ record { count = rw t refl; ends = rw t refl; taken = rw t refl; dropped = rw t refl }
  | inr f ↦
      let e = ended c d (rw f at h) in
      record {
        count = rw f (ap suc e.count);
        ends = rw f e.ends;
        taken = rw f (ap (λ l. b ∷ l) e.taken);
        dropped = rw f e.dropped;
      }
]

pub record Unended (c d : List ℕ) : Type 0 where
  pub whole : line_end c ≡ length c
  pub count : line_end (c ++ d) ≡ length c + line_end d
  pub ends : ends_line (c ++ d) ≡ ends_line d

pub unended : (c d : List ℕ) → ends_line c ≡ false → Unended c d
unended [] d h = record { whole = refl; count = omega arith; ends = refl }
unended (b ∷ c) d h = elim (Bool-cases (b == 10)) [
  | inl t ↦ absurd (differ (rw t at h))
  | inr f ↦
      let e = unended c d (rw f at h) in
      record {
        whole = rw f (ap suc e.whole);
        count = rw f (omega (arith, e.count));
        ends = rw f e.ends;
      }
]
  where
    differ : true ≡ false → ⊥
    differ e = cc

pub take-plus : (c d : List ℕ) (k : ℕ) → take (length c + k) (c ++ d) ≡ c ++ take k d
take-plus [] d k = ap (λ (n : ℕ). take n d) (omega arith)
take-plus (b ∷ c) d k =
    ap (λ (n : ℕ). take n (b ∷ (c ++ d))) (succ (length c) k) ∙ ap (λ l. b ∷ l) (take-plus c d k)
  where
    succ : (n k : ℕ) → suc n + k ≡ suc (n + k)
    succ n k = omega arith

pub drop-plus : (c d : List ℕ) (k : ℕ) → drop (length c + k) (c ++ d) ≡ drop k d
drop-plus [] d k = ap (λ (n : ℕ). drop n d) (omega arith)
drop-plus (b ∷ c) d k = ap (λ (n : ℕ). drop n (b ∷ (c ++ d))) (succ (length c) k) ∙ drop-plus c d k
  where
    succ : (n k : ℕ) → suc n + k ≡ suc (n + k)
    succ n k = omega arith

pub take_whole : (c : List ℕ) → take (length c) c ≡ c
take_whole [] = refl
take_whole (b ∷ c) = ap (λ l. b ∷ l) (take_whole c)

pub too_long-more :
    (n k budget size : ℕ) → too_long n budget size ≡ true → too_long (n + k) budget size ≡ true
too_long-more n k budget size h = ground arith

pub too_long-less :
    (n k budget size : ℕ)
    → too_long n budget size ≡ false
    → too_long (n + k) budget size ≡ too_long k (budget - n) (size + n)
too_long-less n k budget size h = ground arith

pub too_long-room : (n budget size : ℕ) → too_long n budget size ≡ false → size + n ≤ max_line_bytes
too_long-room n budget size h = ground arith

pub too_long-none : (budget size : ℕ) → size ≤ max_line_bytes → too_long 0 budget size ≡ false
too_long-none budget size h = ground arith
