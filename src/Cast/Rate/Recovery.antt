-- ===== src/Cast/Rate/Recovery.antt =====
-- How fast rate.rs gives way to congestion, and how fast it comes back.
use big_net_screen.Base.{
  ℕ, suc, ◌+◌, ◌-◌, ◌*◌, ◌^◌, ◌≤◌, ◌<◌, ◌≡◌, ◌∙◌, ◌⊎◌, inl, inr, true, false, List, [], ◌∷◌, length,
  All, arith,
}
use big_net_screen.Cast.Rate.{Window, RateControl, floor_kbps, congested, settle, observe, run}
use big_net_screen.Cast.Rate.Bounds.{IsValid, settle-IsValid, ceiling-settle}

retreats :
    (r : RateControl) (n : ℕ)
    → IsValid r
    → r.current_kbps ≤ floor_kbps + 60 * suc n
    → (settle true r).current_kbps ≤ floor_kbps + 60 * n
unfolding settle
retreats r n v h = ground arith

-- A link that stays congested brings the rate to the floor, and no lower: a window takes 60 kbit
-- at least, so a number of windows that spans the distance is enough.
pub congestion_floor :
    (windows : List Window) (r : RateControl)
    → IsValid r
    → All (λ w. congested w ≡ true) windows
    → r.current_kbps ≤ floor_kbps + 60 * length windows
    → (run windows r).current_kbps ≡ floor_kbps
unfolding run observe
congestion_floor [] r v bad h = omega (arith, v.floor)
congestion_floor (w ∷ ws) r v bad h =
    rw (bad.0, run)
      (congestion_floor ws (settle true r) (settle-IsValid true r v) bad.1
        (retreats r (length ws) v h))

-- The windows still to come, and those that count already, pay for the raises that are left.
record Affords (n k : ℕ) (r : RateControl) : Type 0 where
  small : r.healthy_windows + n < 2 ^ 32
  near : r.ceiling_kbps ≤ r.current_kbps + 30 * k
  paid : (4 * k ≤ n + 3) × (4 * k ≤ n + r.healthy_windows)

raises :
    (r : RateControl) (n k : ℕ)
    → IsValid r
    → Affords (suc n) k r
    → Affords n k (settle false r) ⊎ Affords n (k - 1) (settle false r)
unfolding settle
raises r n k v a = ground arith

recovers :
    (windows : List Window) (k : ℕ) (r : RateControl)
    → IsValid r
    → All (λ w. congested w ≡ false) windows
    → Affords (length windows) k r
    → (run windows r).current_kbps ≡ r.ceiling_kbps
unfolding run observe
recovers [] k r v good a = omega (arith, v.ceiling, a.near, a.paid)
recovers (w ∷ ws) k r v good a =
    rw (good.0, run)
      (elim (raises r (length ws) k v a) [
        | inl a' ↦
            recovers ws k (settle false r) (settle-IsValid false r v) good.1 a'
            ∙ ceiling-settle false r
        | inr a' ↦
            recovers ws (k - 1) (settle false r) (settle-IsValid false r v) good.1 a'
            ∙ ceiling-settle false r
      ])

-- A link that stays healthy brings the rate back to the ceiling: every four windows add 30 kbit at
-- least, so a number of windows that spans the distance is enough.
pub health_ceiling :
    (windows : List Window) (steps : ℕ) (r : RateControl)
    → IsValid r
    → All (λ w. congested w ≡ false) windows
    → r.ceiling_kbps ≤ r.current_kbps + 30 * steps
    → 4 * steps ≤ length windows
    → r.healthy_windows + length windows < 2 ^ 32
    → (run windows r).current_kbps ≡ r.ceiling_kbps
health_ceiling windows steps r v good near long small =
    recovers windows steps r v good
      (record { small = small; near = near; paid = (omega arith, omega arith) })
