-- ===== src/Core/Sps/Scan/Again.antt =====
-- What the survey makes of an SPS that agrees with one surveyed before, and then declares the
-- restriction.
use mathlib.Core.Path.{subst}
use big_net_screen.Base.{
  ℕ, ◌+◌, ◌*◌, ◌≤◌, ◌≡◌, refl, sym, ap, ◌∙◌, Bool, true, false, some, List, [], ◌∷◌, length, arith,
  none, inl, inr, Option-cases, ==_iff, ◌==◌, le→leb,
}
use big_net_screen.Base.Outcome.{Outcome, ok, invalid, fault}
use big_net_screen.Core.Sps.Reader.{
  BitReader, Read, then_read, ◌>>=◌, ◌>>◌, bit_at, bit, flag, skip,
}
use big_net_screen.Core.Sps.Reader.Local.{from, Agrees, Agrees-le, bit_at-some, Stays}
use big_net_screen.Core.Sps.Scan.{
  Survey, head, vui, position, after_vui, after_head, unless_declared, by_presence, survey, when,
  aspect_ratio, video_signal, skip_hrd, pass_ue,
}
use big_net_screen.Core.Sps.Scan.Local.{head-IsLocal, vui-IsLocal}

-- The bits that follow those that were copied.
abbrev pub Follows : List ℕ → ℕ → List ℕ → Type 0
Follows d i [] = Unit
Follows d i (b ∷ bs) = (bit_at d i ≡ some b) × Follows d (i + 1) bs

abbrev pub marks : Bool → List ℕ
marks true = 1 ∷ []
marks false = 1 ∷ 0 ∷ 0 ∷ 0 ∷ 0 ∷ 0 ∷ 0 ∷ 0 ∷ 0 ∷ 1 ∷ []

abbrev pub Surveyed : List ℕ → Outcome (Survey × BitReader) → Type 0
Surveyed d (ok (s, r)) =
    (s.copied ≤ length d * 8)
    × ((d' : List ℕ)
        → Agrees s.copied d d'
        → Follows d' s.copied (marks s.has_vui)
        → survey (from d' 0) ≡ invalid)
Surveyed d invalid = Unit
Surveyed d fault = ⊥

flag-is :
    (d : List ℕ) (i b : ℕ) → bit_at d i ≡ some b → flag (from d i) ≡ ok (b == 1, from d (i + 1))
unfolding flag bit ◌>>=◌
flag-is d i b e = rw e

-- A part of the VUI that is not there.
absent :
    {B : Type 0} (d : List ℕ) (i : ℕ) (m : Read (Unit {0})) (k : Bool → Read B)
    → bit_at d i ≡ some 0
    → (flag >>= λ b. when b m >> k b) (from d i) ≡ k false (from d (i + 1))
unfolding ◌>>=◌ ◌>>◌
absent d i m k e = ap (λ o. then_read o (λ b. when b m >> k b)) (flag-is d i 0 e)

last_skip : (d : List ℕ) (i : ℕ) → bit_at d i ≡ some 0 → skip 1 (from d i) ≡ ok (tt, from d (i + 1))
unfolding skip
last_skip d i e = rw (le→leb _ _ (bit_at-some d i 0 e))

-- A VUI in which nothing is present.
empty_vui :
    (d : List ℕ) (i : ℕ)
    → Follows d i (0 ∷ 0 ∷ 0 ∷ 0 ∷ 0 ∷ 0 ∷ 0 ∷ 0 ∷ [])
    → vui (from d i) ≡ ok (tt, from d (i + 1 + 1 + 1 + 1 + 1 + 1 + 1 + 1))
unfolding vui
empty_vui d i (a, (b, (c, (e, (f, (g, (h, (j, k)))))))) =
    absent d i aspect_ratio _ a
    ∙ absent d _ (skip 1) _ b
    ∙ absent d _ video_signal _ c
    ∙ absent d _ (pass_ue >> pass_ue) _ e
    ∙ absent d _ (skip 65) _ f
    ∙ absent d _ skip_hrd _ g
    ∙ absent d _ skip_hrd _ h
    ∙ last d _ j
  where
    last :
        (d : List ℕ) (i : ℕ)
        → bit_at d i ≡ some 0
        → (when false (skip 1) >> skip 1) (from d i) ≡ ok (tt, from d (i + 1))
    last d i e = last_skip d i e

flag-none : (d : List ℕ) (i : ℕ) → bit_at d i ≡ none → flag (from d i) ≡ invalid
unfolding flag bit ◌>>=◌
flag-none d i e = rw e

after_vui-flag :
    (refs : ℕ) (d : List ℕ) (j b : ℕ)
    → bit_at d j ≡ some b
    → after_vui refs (from d j) ≡ unless_declared refs j (b == 1) (from d (j + 1))
unfolding after_vui ◌>>=◌ position
after_vui-flag refs d j b e = ap (λ o. then_read o (unless_declared refs j)) (flag-is d j b e)

after_vui-none :
    (refs : ℕ) (d : List ℕ) (j : ℕ) → bit_at d j ≡ none → after_vui refs (from d j) ≡ invalid
unfolding after_vui ◌>>=◌ position
after_vui-none refs d j e = ap (λ o. then_read o (unless_declared refs j)) (flag-none d j e)

after_head-flag :
    (refs : ℕ) (d : List ℕ) (j b : ℕ)
    → bit_at d j ≡ some b
    → after_head refs (from d j) ≡ by_presence refs j (b == 1) (from d (j + 1))
unfolding after_head ◌>>=◌ position
after_head-flag refs d j b e = ap (λ o. then_read o (by_presence refs j)) (flag-is d j b e)

after_head-none :
    (refs : ℕ) (d : List ℕ) (j : ℕ) → bit_at d j ≡ none → after_head refs (from d j) ≡ invalid
unfolding after_head ◌>>=◌ position
after_head-none refs d j e = ap (λ o. then_read o (by_presence refs j)) (flag-none d j e)

-- Where there is a VUI from `i` on, bits that agree and then declare the restriction are left alone.
WithinVui : ℕ → List ℕ → ℕ → Outcome (Survey × BitReader) → Type 0
WithinVui refs d i (ok (s, r)) =
    (s.has_vui ≡ true)
    × (i ≤ s.copied)
    × (s.copied ≤ length d * 8)
    × ((d' : List ℕ)
        → Agrees s.copied d d'
        → bit_at d' s.copied ≡ some 1
        → (vui >> after_vui refs) (from d' i) ≡ invalid)
WithinVui refs d i invalid = Unit
WithinVui refs d i fault = ⊥

module _ (refs : ℕ) (d : List ℕ) (i : ℕ) where
  undeclared :
      (r : BitReader) (b : Bool)
      → Stays vui d i (ok (tt, r))
      → WithinVui refs d i (unless_declared refs r.at b (from d (r.at + 1)))
  unfolding WithinVui ◌>>◌
  undeclared r true s = tt
  undeclared r false s = (
    refl,
    s.1,
    s.2,
    λ d' g e.
        ap (λ o. then_read o (λ _. after_vui refs)) (s.3 d' g) ∙ after_vui-flag refs d' r.at 1 e,
  )

  WithinVui-read :
      (r : BitReader)
      → Stays vui d i (ok (tt, r))
      → WithinVui refs d i (after_vui refs (from d r.at))
  unfolding WithinVui ◌>>◌
  WithinVui-read r s = elim (Option-cases (bit_at d r.at)) [
    | inl e ↦ rw (after_vui-none refs d r.at e) tt
    | inr (b, e) ↦ rw (after_vui-flag refs d r.at b e) (undeclared r (b == 1) s)
  ]

  WithinVui-result :
      (o : Outcome (Unit {0} × BitReader))
      → Stays vui d i o
      → WithinVui refs d i (then_read o (λ _. after_vui refs))
  unfolding WithinVui
  WithinVui-result (ok (tt, r)) s =
      subst (λ q. WithinVui refs d i (after_vui refs q)) (sym s.0) (WithinVui-read r s)
  WithinVui-result invalid s = tt
  WithinVui-result fault s = s

  within_vui : i ≤ length d * 8 → WithinVui refs d i ((vui >> after_vui refs) (from d i))
  unfolding ◌>>◌
  within_vui le = WithinVui-result (vui (from d i)) (vui-IsLocal.stays d i le)

-- A VUI that holds nothing but the restriction.
bare_vui :
    (refs : ℕ) (d : List ℕ) (i : ℕ)
    → Follows d i (0 ∷ 0 ∷ 0 ∷ 0 ∷ 0 ∷ 0 ∷ 0 ∷ 0 ∷ 1 ∷ [])
    → (vui >> after_vui refs) (from d i) ≡ invalid
unfolding ◌>>◌
bare_vui refs d i (a, (b, (c, (e, (f, (g, (h, (j, (k, l))))))))) =
    ap (λ o. then_read o (λ _. after_vui refs))
      (empty_vui d i (a, (b, (c, (e, (f, (g, (h, (j, tt)))))))))
    ∙ after_vui-flag refs d _ 1 k

-- Of a survey that has read the head of the SPS, up to the flag of the VUI at `r`.
module _ (d : List ℕ) (refs : ℕ) (r : BitReader) (s : Stays head d 0 (ok (refs, r))) where
  head_again :
      (d' : List ℕ) → Agrees r.at d d' → survey (from d' 0) ≡ after_head refs (from d' r.at)
  unfolding survey ◌>>=◌
  head_again d' g = ap (λ o. then_read o after_head) (s.3 d' g)

  within-Surveyed :
      (o : Outcome (Survey × BitReader))
      → bit_at d r.at ≡ some 1
      → WithinVui refs d (r.at + 1) o
      → Surveyed d o
  unfolding WithinVui by_presence
  within-Surveyed (ok (t, q)) e w = (
    w.2,
    λ d' g f.
        head_again d' (Agrees-le r.at t.copied d d' (omega (arith, w.1)) g)
        ∙ after_head-flag refs d' r.at 1 (g.same r.at (omega (arith, w.1)) ∙ e)
        ∙ w.3 d' g (rw w.0 at f).0,
  )
  within-Surveyed invalid e w = tt
  within-Surveyed fault e w = w

  by_presence-Surveyed :
      (b : ℕ) (present : Bool)
      → bit_at d r.at ≡ some b
      → present ≡ (b == 1)
      → Surveyed d (by_presence refs r.at present (from d (r.at + 1)))
  unfolding by_presence
  by_presence-Surveyed b true e p =
      let one : b ≡ 1 = (==_iff b 1).0 (sym p) in
      let e1 : bit_at d r.at ≡ some 1 = e ∙ ap (λ (b : ℕ). some b) one in
      within-Surveyed _ e1 (within_vui refs d (r.at + 1) (bit_at-some d r.at 1 e1))
  by_presence-Surveyed b false e p = (
    s.2,
    λ d' g f.
        head_again d' g ∙ after_head-flag refs d' r.at 1 f.0 ∙ bare_vui refs d' (r.at + 1) f.1,
  )

  after_head-Surveyed : Surveyed d (after_head refs (from d r.at))
  after_head-Surveyed = elim (Option-cases (bit_at d r.at)) [
    | inl e ↦ rw (after_head-none refs d r.at e) tt
    | inr (b, e) ↦ rw (after_head-flag refs d r.at b e) (by_presence-Surveyed b (b == 1) e refl)
  ]

survey-from :
    (d : List ℕ) (o : Outcome (ℕ × BitReader))
    → Stays head d 0 o
    → Surveyed d (then_read o after_head)
survey-from d (ok (refs, r)) s =
    subst (λ q. Surveyed d (after_head refs q)) (sym s.0) (after_head-Surveyed d refs r s)
survey-from d invalid s = tt
survey-from d fault s = s

-- The survey of any SPS never panics, and bits that agree with it and then declare the restriction
-- are left alone.
pub survey-Surveyed : (d : List ℕ) → Surveyed d (survey (from d 0))
unfolding survey ◌>>=◌
survey-Surveyed d = survey-from d (head (from d 0)) (head-IsLocal.stays d 0 (omega arith))
