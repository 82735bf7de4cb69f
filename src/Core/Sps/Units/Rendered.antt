-- ===== src/Core/Sps/Units/Rendered.antt =====
-- What decode_buffer.rs makes of a whole access unit.
use Prim.Native.Nat.{bit_and}
use mathlib.Core.Path.{subst}
use big_net_screen.Base.{
  ℕ, ◌≡◌, refl, sym, ap, ap₂, ◌∙◌, Bool, true, false, ◌||◌, Option, none, some, List, [], ◌∷◌, ◌++◌,
  append_assoc, append-nil, slice, if◌then◌else◌, ◌==◌, arith,
}
use big_net_screen.Base.Outcome.{
  Outcome, ok, ◌>>=◌, must, Returns, Returns-ok, bind-Returns, map-Returns,
}
use big_net_screen.Core.Sps.Units.{
  end_of, place, replacement, rewrite_units, rewrite_access_unit, start_codes,
}
use big_net_screen.Core.Sps.Units.Starts.{IsStarts, must-slice, start_codes-IsStarts}
use big_net_screen.Core.Sps.Units.Codes.{AllStarts, start_codes-AllStarts}
use big_net_screen.Core.Sps.Units.Pieces.{
  cut, new_unit, or_else, rendered, is_some, changes, described, cut-cut, end-le, kept, whole,
}

-- What is left to do, after what is written.
abbrev afterwards :
    (List ℕ → Option (List ℕ)) → List ℕ → List (ℕ × ℕ) → Option (List ℕ) → Option (List ℕ)
afterwards f bytes starts none = described f bytes starts
afterwards f bytes starts (some o) = some (o ++ rendered f bytes starts)

module _ (f : List ℕ → Option (List ℕ)) (bytes : List ℕ) (code nal : ℕ)
    (starts : List (ℕ × ℕ)) where
  unit : List ℕ
  unit = cut bytes nal (end_of bytes starts)

  -- `afterwards` of a unit that became `new`.
  once_became : Option (List ℕ) → Option (List ℕ) → Option (List ℕ)
  once_became none new =
      if is_some new || changes f bytes starts
      then some (
          cut bytes 0 code ++ (cut bytes code nal ++ (or_else new unit ++ rendered f bytes starts)))
      else none
  once_became (some o) new =
      some (o ++ (cut bytes code nal ++ (or_else new unit ++ rendered f bytes starts)))

  place-once_became :
      (new out : Option (List ℕ))
      → IsStarts bytes 0 ((code, nal) ∷ starts)
      → Returns
          (λ out'. afterwards f bytes starts out' ≡ once_became out new)
          (place bytes code nal (end_of bytes starts) new out)
  unfolding place once_became unit
  place-once_became (some sps) none h =
      bind-Returns (λ b. b ≡ cut bytes 0 code) _ (must (slice bytes 0 code)) _
        (must-slice bytes 0 code (omega arith) (omega (arith, h.1, h.2)))
        (λ b eb.
          bind-Returns (λ m. m ≡ cut bytes code nal) _ (must (slice bytes code nal)) _
            (must-slice bytes code nal h.1 h.2)
            (λ m em.
              ap₂ (λ b m. some ((b ++ (m ++ sps)) ++ rendered f bytes starts)) eb em
              ∙ simp append_assoc refl))
  place-once_became (some sps) (some o) h =
      bind-Returns (λ m. m ≡ cut bytes code nal) _ (must (slice bytes code nal)) _
        (must-slice bytes code nal h.1 h.2)
        (λ m em.
          ap (λ m. some ((o ++ (m ++ sps)) ++ rendered f bytes starts)) em ∙ simp append_assoc refl)
  place-once_became none (some o) h =
      let ends = end-le bytes nal starts h.3 in
      bind-Returns (λ m. m ≡ cut bytes code (end_of bytes starts)) _
        (must (slice bytes code (end_of bytes starts))) _
        (must-slice bytes code (end_of bytes starts) (omega (arith, h.1, ends.0)) ends.1)
        (λ m em.
          ap (λ m. some ((o ++ m) ++ rendered f bytes starts))
            (em ∙ sym (cut-cut bytes code nal (end_of bytes starts) h.1 ends.0))
          ∙ simp append_assoc refl)
  place-once_became none none h =
      let ends = end-le bytes nal starts h.3 in
      ap (λ bs. if changes f bytes starts then some bs else none)
        (sym (kept bytes (rendered f bytes starts) code nal (end_of bytes starts) h.1 ends.0))

  place-afterwards :
      (new out : Option (List ℕ))
      → IsStarts bytes 0 ((code, nal) ∷ starts)
      → new ≡ new_unit f (cut bytes nal (end_of bytes starts))
      → Returns
          (λ out'. afterwards f bytes starts out' ≡ afterwards f bytes ((code, nal) ∷ starts) out)
          (place bytes code nal (end_of bytes starts) new out)
  unfolding once_became unit
  place-afterwards new none h e =
      subst
        (λ n.
          Returns (λ out'. afterwards f bytes starts out' ≡ once_became none n)
            (place bytes code nal (end_of bytes starts) new none))
        e (place-once_became new none h)
  place-afterwards new (some o) h e =
      subst
        (λ n.
          Returns (λ out'. afterwards f bytes starts out' ≡ once_became (some o) n)
            (place bytes code nal (end_of bytes starts) new (some o)))
        e (place-once_became new (some o) h)

-- A `rewrite` that answers what `f` does and keeps its state sound.
module _ {S : Type 0} (rewrite : S → List ℕ → Outcome (Option (List ℕ) × S))
    (f : List ℕ → Option (List ℕ)) (Sound : S → Type 0) where
  abbrev pub Answers : List ℕ → Option (List ℕ) × S → Type 0
  Answers sps (o, s) = (o ≡ f sps) × Sound s

  abbrev Replaces : List ℕ → Option (List ℕ) × S → Type 0
  Replaces unit (o, s) = (o ≡ new_unit f unit) × Sound s

  replacement-Replaces :
      ((s : S) (sps : List ℕ) → Sound s → Returns (Answers sps) (rewrite s sps))
      → (s : S) (unit : List ℕ) → Sound s
      → Returns (Replaces unit) (replacement rewrite s unit)
  replacement-Replaces answers s [] sound = (refl, sound)
  replacement-Replaces answers s (header ∷ unit) sound = by_kind (bit_and header 0x1f == 7)
    where
      by_kind :
          (sps : Bool)
          → Returns
              (λ r. (r.0 ≡ (if sps then f (header ∷ unit) else none)) × Sound r.1)
              (if sps then rewrite s (header ∷ unit) else ok (none, s))
      by_kind true = answers s (header ∷ unit) sound
      by_kind false = (refl, sound)

  rewrite_units-afterwards :
      ((s : S) (sps : List ℕ) → Sound s → Returns (Answers sps) (rewrite s sps))
      → (bytes : List ℕ) (starts : List (ℕ × ℕ)) (low : ℕ) (s : S) (out : Option (List ℕ))
      → IsStarts bytes low starts
      → Sound s
      → Returns
          (λ r. (r.0 ≡ afterwards f bytes starts out) × Sound r.1)
          (rewrite_units rewrite bytes starts s out)
  unfolding rewrite_units
  rewrite_units-afterwards answers bytes [] low s none h sound = (refl, sound)
  rewrite_units-afterwards answers bytes [] low s (some o) h sound =
      (ap some (sym (append-nil o)), sound)
  rewrite_units-afterwards answers bytes ((code, nal) ∷ starts) low s out h sound =
      let ends = end-le bytes nal starts h.3 in
      let P : Option (List ℕ) × S → Type 0 =
        λ r. (r.0 ≡ afterwards f bytes ((code, nal) ∷ starts) out) × Sound r.1 in
      bind-Returns (λ u. u ≡ cut bytes nal (end_of bytes starts)) P
        (must (slice bytes nal (end_of bytes starts))) _
        (must-slice bytes nal (end_of bytes starts) ends.0 ends.1)
        (λ u eu.
          bind-Returns (Replaces u) P (replacement rewrite s u) _
            (replacement-Replaces answers s u sound)
            (λ x hx.
              bind-Returns
                (λ o. afterwards f bytes starts o ≡ afterwards f bytes ((code, nal) ∷ starts) out) P
                (place bytes code nal (end_of bytes starts) x.0 out) _
                (place-afterwards f bytes code nal starts x.0 out (omega arith, h.1, h.2, h.3)
                  (hx.0 ∙ ap (new_unit f) eu))
                (λ o e.
                  map-Returns (λ r. (r.0 ≡ afterwards f bytes starts o) × Sound r.1) P
                    (rewrite_units rewrite bytes starts x.1 o) (λ r hr. (hr.0 ∙ e, hr.1))
                    (rewrite_units-afterwards answers bytes starts nal x.1 o h.3 hx.1))))

  -- Of the access unit `bytes`, at all its start codes up to the first slice: each SPS that `f`
  -- changes is replaced, and everything else kept.
  abbrev pub Replaced : List ℕ → Option (List ℕ) × S → Type 0
  Replaced bytes (out, s) =
      ((starts : List (ℕ × ℕ)) × AllStarts bytes 0 starts
        × (out ≡ described f bytes starts)
        × (cut bytes 0 (end_of bytes starts) ++ rendered (λ _. none) bytes starts ≡ bytes))
      × Sound s

  pub rewrite_access_unit-Replaced :
      ((s : S) (sps : List ℕ) → Sound s → Returns (Answers sps) (rewrite s sps))
      → (bytes : List ℕ) (s : S) → Sound s
      → Returns (Replaced bytes) (rewrite_access_unit rewrite bytes s)
  unfolding rewrite_access_unit
  rewrite_access_unit-Replaced answers bytes s sound =
      let (starts, e, h) =
        Returns-ok (IsStarts bytes 0) (start_codes bytes) (start_codes-IsStarts bytes) in
      let all : AllStarts bytes 0 starts =
        subst (Returns (AllStarts bytes 0)) e (start_codes-AllStarts bytes) in
      subst
        (λ o. Returns (Replaced bytes) (o >>= λ starts. rewrite_units rewrite bytes starts s none))
        (sym e)
        (map-Returns (λ r. (r.0 ≡ afterwards f bytes starts none) × Sound r.1) (Replaced bytes)
          (rewrite_units rewrite bytes starts s none)
          (λ r hr. ((starts, all, hr.0, whole bytes 0 starts h), hr.1))
          (rewrite_units-afterwards answers bytes starts 0 s none h sound))
