-- ===== src/Cast/Worker/Upkeep/Silence.antt =====
-- When worker.rs takes the receiver for gone.
use big_net_screen.Base.{
  ℕ, ◌-◌, ◌≤◌, ◌<◌, ◌≡◌, refl, sym, ap, ◌∙◌, Bool, true, false, not, List, [], ◌∷◌, ltb, ◌==◌,
  ==_iff, if-holds, All, All-map, arith,
}
use big_net_screen.Cast.Sender.Track.{receiver_silence_timeout}
use big_net_screen.Cast.Worker.Upkeep.{Alive, receiver_went_quiet}

-- The clock and the sign of life at a turn.
pub record Reading : Type 0 where
  pub now : ℕ
  pub seen : ℕ

-- The state after the turns, the last of which comes first.
abbrev pub watched : List Reading → Alive → Alive
watched [] a = a
watched (r ∷ earlier) a = (receiver_went_quiet r.now r.seen (watched earlier a)).1

-- The clock does not go back.
abbrev pub IsOrdered : List Reading → Type 0
IsOrdered [] = Unit
IsOrdered (r ∷ earlier) = All (λ e. e.now ≤ r.now) earlier × IsOrdered earlier

abbrev IsCurrent : Alive → Reading → Type 0
IsCurrent a r = a.since < r.now → r.seen ≡ a.seen

turn-IsCurrent :
    (r : Reading) (earlier : List Reading) (a : Alive)
    → All (λ e. e.now ≤ r.now) earlier
    → All (IsCurrent a) earlier
    → All (IsCurrent (receiver_went_quiet r.now r.seen a).1) (r ∷ earlier)
unfolding receiver_went_quiet
turn-IsCurrent r earlier a h k =
    if-holds (λ (p : Bool × Alive). All (IsCurrent p.1) (r ∷ earlier)) (not (r.seen == a.seen))
      (false, record { seen = r.seen; since = r.now })
      (ltb receiver_silence_timeout (r.now - a.since), a)
      (λ _. (
        λ n. refl,
        All-map (λ e. e.now ≤ r.now) _ earlier (λ e le lt. absurd (omega (arith, le, lt))) h,
      ))
      (λ same. (λ n. (==_iff r.seen a.seen).0 (unnot (r.seen == a.seen) same), k))
  where
    unnot : (b : Bool) → not b ≡ false → b ≡ true
    unnot b h = ground arith

watched-IsCurrent :
    (readings : List Reading) (a : Alive)
    → IsOrdered readings
    → All (IsCurrent (watched readings a)) readings
watched-IsCurrent [] a o = tt
watched-IsCurrent (r ∷ earlier) a o =
    turn-IsCurrent r earlier (watched earlier a) o.0 (watched-IsCurrent earlier a o.1)

quiet-inv :
    (now seen : ℕ) (a : Alive)
    → (receiver_went_quiet now seen a).0 ≡ true
    → (seen ≡ a.seen) × (receiver_silence_timeout < now - a.since)
unfolding receiver_went_quiet
quiet-inv now seen a h = ground arith

-- The receiver is taken for gone only if its sign of life was the same at every turn of the last
-- eight seconds.
pub quiet_unchanged :
    (readings : List Reading) (a : Alive) (now seen : ℕ)
    → IsOrdered readings
    → (receiver_went_quiet now seen (watched readings a)).0 ≡ true
    → All (λ r. now - r.now ≤ receiver_silence_timeout → r.seen ≡ seen) readings
quiet_unchanged readings a now seen o h =
    let (same, long) = quiet-inv now seen (watched readings a) h in
    All-map (IsCurrent (watched readings a)) _ readings
      (λ r c late. c (omega (arith, late, long)) ∙ sym same) (watched-IsCurrent readings a o)

not_same : (n : ℕ) → not (n == n) ≡ true → ⊥
not_same n h = ground arith

quiet-state : (now : ℕ) (a : Alive) → (receiver_went_quiet now a.seen a).1 ≡ a
unfolding receiver_went_quiet
quiet-state now a =
    if-holds (λ (p : Bool × Alive). p.1 ≡ a) (not (a.seen == a.seen))
      (false, record { seen = a.seen; since = now })
      (ltb receiver_silence_timeout (now - a.since), a) (λ t. absurd (not_same a.seen t))
      (λ _. refl)

quiet-verdict :
    (now : ℕ) (a : Alive)
    → (receiver_went_quiet now a.seen a).0 ≡ ltb receiver_silence_timeout (now - a.since)
unfolding receiver_went_quiet
quiet-verdict now a =
    if-holds (λ (p : Bool × Alive). p.0 ≡ ltb receiver_silence_timeout (now - a.since))
      (not (a.seen == a.seen)) (false, record { seen = a.seen; since = now })
      (ltb receiver_silence_timeout (now - a.since), a) (λ t. absurd (not_same a.seen t))
      (λ _. refl)

silent-watched :
    (readings : List Reading) (a : Alive)
    → All (λ r. r.seen ≡ a.seen) readings
    → watched readings a ≡ a
silent-watched [] a h = refl
silent-watched (r ∷ earlier) a h =
    ap (λ b. (receiver_went_quiet r.now r.seen b).1) (silent-watched earlier a h.1)
    ∙ ap (λ (n : ℕ). (receiver_went_quiet r.now n a).1) h.0
    ∙ quiet-state r.now a

-- A receiver of which no turn sees a new sign of life is taken for gone once the eight seconds are
-- over, and not before.
silence_noticed :
    (readings : List Reading) (a : Alive) (now : ℕ)
    → All (λ r. r.seen ≡ a.seen) readings
    → (receiver_went_quiet now a.seen (watched readings a)).0
      ≡ ltb receiver_silence_timeout (now - a.since)
silence_noticed readings a now h = rw (silent-watched readings a h) (quiet-verdict now a)
