-- ===== src/Cast/Worker/Upkeep/Encoder.antt =====
-- The bitrate that worker.rs sets on the encoder.
use big_net_screen.Base.{
  ℕ, ◌-◌, ◌≡◌, refl, sym, ap, ◌∙◌, not, ◌==◌, ==_iff, if◌then◌else◌, Bool-cases, inl, inr, Option,
  none, some, ltb, if-holds,
}
use big_net_screen.Cast.Rate.{Window, RateControl, congested, settle, observe, advance}
use big_net_screen.Cast.Rate.Bounds.{IsValid, settle-IsValid}
use big_net_screen.Cast.Worker.Upkeep.{update_interval, Adapting, adapt_bitrate}

-- The encoder's bitrate after the call.
abbrev pub applied : ℕ → Option ℕ → ℕ
applied kbps none = kbps
applied kbps (some told) = told

-- The rate is valid, and the encoder has it.
abbrev pub IsApplied : ℕ → Option ℕ × RateControl → Type 0
IsApplied kbps (told, r) = IsValid r × (applied kbps told ≡ r.current_kbps)

observe-IsApplied :
    (window : Window) (r : RateControl) → IsValid r → IsApplied r.current_kbps (observe window r)
unfolding observe
observe-IsApplied window r v = (
  settle-IsValid (congested window) r v,
  told (settle (congested window) r).current_kbps r.current_kbps,
)
  where
    told : (new old : ℕ) → applied old (if not (new == old) then some new else none) ≡ new
    told new old = elim (Bool-cases (new == old)) [
      | inl t ↦ rw t (sym ((==_iff new old).0 t))
      | inr f ↦ rw f refl
    ]

-- However often the call comes and whatever the counts are, the encoder has the rate that the
-- control holds, which stays between the floor and the ceiling.
pub adapt_bitrate-IsApplied :
    (now packets resent dropped kbps : ℕ) (a : Adapting)
    → IsValid a.rate
    → kbps ≡ a.rate.current_kbps
    → let (told, a') = adapt_bitrate now packets resent dropped a in IsApplied kbps (told, a'.rate)
unfolding adapt_bitrate
adapt_bitrate-IsApplied now packets resent dropped kbps a v e =
    if-holds (λ (p : Option ℕ × Adapting). IsApplied kbps (p.0, p.1.rate))
      (ltb (now - a.last_rate) update_interval) (none, a) _ (λ _. (v, e))
      (λ _.
        let o = observe-IsApplied (advance packets resent dropped a.baseline).0 a.rate v in
        (
          o.0,
          ap (λ (k : ℕ). applied k (observe (advance packets resent dropped a.baseline).0 a.rate).0)
                e
              ∙ o.1,
        ))
