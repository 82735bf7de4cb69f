-- ===== src/Core/Sps/Units/Probe.antt =====
-- The probe of decode_buffer.rs: it keeps the last SPS with its answer.
use big_net_screen.Base.{
  ℕ, ◌≡◌, refl, ap, ◌∙◌, Option, none, some, List, [], ◌∷◌, Bool-cases, inl, inr,
}
use big_net_screen.Base.Outcome.{Outcome, ok, invalid, fault, Returns, Safe}
use big_net_screen.Base.Text.{same_bytes, same_bytes-eq}
use big_net_screen.Core.Sps.{with_decode_buffer}
use big_net_screen.Core.Sps.Declared.{Settled, with_decode_buffer-Settled}
use big_net_screen.Core.Sps.Units.{LastSps, answered, answer, rewrite_access_unit}
use big_net_screen.Core.Sps.Units.Rendered.{Replaced, rewrite_access_unit-Replaced}

abbrev pub option_of : Outcome (List ℕ) → Option (List ℕ)
option_of (ok out) = some out
option_of _ = none

-- What the SPS becomes, if anything.
abbrev pub declared : List ℕ → Option (List ℕ)
declared sps = option_of (with_decode_buffer sps)

-- The answer that is kept is the answer to the SPS that it is kept with.
abbrev pub Remembers : LastSps → Type 0
Remembers none = Unit
Remembers (some (seen, old)) = old ≡ declared seen

answered-Answers :
    (sps : List ℕ) (o : Outcome (List ℕ)) (P : List ℕ → Type 0)
    → Safe P o
    → o ≡ with_decode_buffer sps
    → Returns (λ r. (r.0 ≡ option_of o) × Remembers r.1) (answered sps o)
answered-Answers sps (ok out) P h e = (refl, ap option_of e)
answered-Answers sps invalid P h e = (refl, ap option_of e)
answered-Answers sps fault P h e = h

direct :
    (sps : List ℕ)
    → Returns (λ r. (r.0 ≡ declared sps) × Remembers r.1) (answered sps (with_decode_buffer sps))
unfolding with_decode_buffer
direct [] = (refl, refl)
direct (header ∷ escaped) =
    answered-Answers (header ∷ escaped) (with_decode_buffer (header ∷ escaped))
      (Settled header escaped) (with_decode_buffer-Settled header escaped) refl

answer-Answers :
    (last : LastSps) (sps : List ℕ)
    → Remembers last
    → Returns (λ r. (r.0 ≡ declared sps) × Remembers r.1) (answer last sps)
unfolding answer
answer-Answers none sps h = direct sps
answer-Answers (some (seen, old)) sps h = elim (Bool-cases (same_bytes seen sps)) [
  | inl t ↦ rw t (h ∙ ap declared (same_bytes-eq seen sps t), h)
  | inr f ↦ rw f (direct sps)
]

-- The probe never panics on an access unit. Its units begin at the start codes of the access unit,
-- all of them up to the one of the first slice, and its pieces between them make it up. Each unit of
-- type 7, an SPS, that `with_decode_buffer` rewrites is replaced by what that returns, every other
-- byte is kept, and nothing is returned when no SPS changes. The answer that the probe keeps from
-- unit to unit makes no difference, and what it keeps then is again such an answer.
pub probe-Replaced :
    (bytes : List ℕ) (last : LastSps)
    → Remembers last
    → Returns (Replaced answer declared Remembers bytes) (rewrite_access_unit answer bytes last)
probe-Replaced = rewrite_access_unit-Replaced answer declared Remembers answer-Answers
