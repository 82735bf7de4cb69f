-- ===== src/Wfd/Message/Chunks/Lines.antt =====
-- `bounded_line` of message.rs reads the same from every cut of the same bytes.
use mathlib.Core.Path.{subst}
use big_net_screen.Base.{
  ℕ, ◌+◌, ◌-◌, ◌≤◌, ◌≡◌, refl, sym, ap, ◌∙◌, true, false, List, [], ◌∷◌, ◌++◌, append_assoc, length,
  length-append, take, drop, if◌then◌else◌, Bool-cases, inl, inr, arith,
}
use big_net_screen.Wfd.Message.{
  max_line_bytes, head_too_large, Read, got, failed, line_end, ends_line, rest_of, too_long,
  line_from,
}
use big_net_screen.Wfd.Message.Chunks.Flat.{
  concat, IsSolid, Same, rest_of-IsSolid, rests, flat_line,
}
use big_net_screen.Wfd.Message.Chunks.Cuts.{
  ended, unended, take-plus, drop-plus, take_whole, too_long-more, too_long-less, too_long-room,
  too_long-none,
}

flat-ended :
    (c d line : List ℕ) (budget : ℕ) (cs : List (List ℕ))
    → ends_line c ≡ true
    → d ≡ concat cs
    → IsSolid cs
    → Same
        (if too_long (line_end c) budget (length line)
          then failed head_too_large
          else got
              (line ++ take (line_end c) c, budget - line_end c)
              (rest_of (drop (line_end c) c) cs))
        (flat_line (c ++ d) line budget)
flat-ended c d line budget cs h e s =
    let q = ended c d h in
    elim (Bool-cases (too_long (line_end c) budget (length line))) [
      | inl t ↦ rw (q.count, t) refl
      | inr f ↦
          rw (q.count, f, q.ends, q.taken, q.dropped)
            (
              refl,
              rests (drop (line_end c) c) (drop (line_end c) c ++ d) cs
                  (ap (λ x. drop (line_end c) c ++ x) e),
              rest_of-IsSolid (drop (line_end c) c) cs s,
              rest_of-IsSolid (drop (line_end c) c ++ d) [] tt,
            )
    ]

flat-longer :
    (c d line : List ℕ) (budget : ℕ)
    → ends_line c ≡ false
    → too_long (line_end c) budget (length line) ≡ false
    → flat_line d (line ++ c) (budget - line_end c) ≡ flat_line (c ++ d) line budget
flat-longer c d line budget h f =
    let q = unended c d h in
    let n = length c in
    let k = line_end d in
    let test : too_long k (budget - n) (length (line ++ c))
        ≡ too_long (n + k) budget (length line) =
      ap (too_long k (budget - n)) (length-append line c)
      ∙ sym (too_long-less n k budget (length line) (rw q.whole at f)) in
    let text : (line ++ c) ++ take k d ≡ line ++ take (n + k) (c ++ d) =
      append_assoc line c (take k d) ∙ ap (λ l. line ++ l) (sym (take-plus c d k)) in
    let left : budget - n - k ≡ budget - (n + k) = omega arith in
    rw (q.whole, q.count, q.ends, test, text, left, drop-plus c d k) refl

flat-too_long :
    (c d line : List ℕ) (budget : ℕ)
    → ends_line c ≡ false
    → too_long (line_end c) budget (length line) ≡ true
    → flat_line (c ++ d) line budget ≡ failed head_too_large
flat-too_long c d line budget h t =
    let q = unended c d h in
    let long : too_long (line_end (c ++ d)) budget (length line) ≡ true =
      ap (λ (n : ℕ). too_long n budget (length line)) q.count
      ∙ too_long-more (length c) (line_end d) budget (length line) (rw q.whole at t) in
    rw long refl

-- The step over a chunk without the end of the line.
step-flat :
    (c d line : List ℕ) (budget : ℕ) (more : List ℕ → Read (List ℕ × ℕ))
    → ends_line c ≡ false
    → (length (line ++ c) ≤ max_line_bytes
        → Same (more (line ++ c)) (flat_line d (line ++ c) (budget - line_end c)))
    → Same
        (if too_long (line_end c) budget (length line)
          then failed head_too_large
          else more (line ++ take (line_end c) c))
        (flat_line (c ++ d) line budget)
step-flat c d line budget more h ih =
    let q = unended c d h in
    elim (Bool-cases (too_long (line_end c) budget (length line))) [
      | inl t ↦ rw (t, flat-too_long c d line budget h t) refl
      | inr f ↦
          let whole : take (line_end c) c ≡ c = ap (λ (n : ℕ). take n c) q.whole ∙ take_whole c in
          let room : length (line ++ c) ≤ max_line_bytes =
            omega (arith, length-append line c, too_long-room _ budget (length line) f, q.whole) in
          rw (f, whole)
            (subst (Same (more (line ++ c))) (flat-longer c d line budget h f) (ih room))
    ]

pub line_from-flat :
    (cs : List (List ℕ)) (line : List ℕ) (budget : ℕ)
    → IsSolid cs
    → length line ≤ max_line_bytes
    → Same (line_from cs line budget) (flat_line (concat cs) line budget)
unfolding line_from
line_from-flat [] line budget s k = rw (too_long-none budget (length line) k) refl
line_from-flat ([] ∷ cs) line budget s k = absurd (s.0 refl)
line_from-flat ((b ∷ bytes) ∷ cs) line budget s k =
    let c = b ∷ bytes in
    elim (Bool-cases (ends_line c)) [
      | inl t ↦ rw t (flat-ended c (concat cs) line budget cs t refl s.1)
      | inr f ↦ rw f (
          step-flat c (concat cs) line budget (λ l. line_from cs l (budget - line_end c)) f
            (λ room. line_from-flat cs (line ++ c) (budget - line_end c) s.1 room))
    ]
