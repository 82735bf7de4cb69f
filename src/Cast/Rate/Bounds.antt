-- ===== src/Cast/Rate/Bounds.antt =====
-- The bounds that rate.rs keeps the bitrate in.
use big_net_screen.Base.{
  ℕ, ◌*◌, ◌^◌, ◌≤◌, ◌<◌, ◌≡◌, ◌≢◌, Bool, true, false, none, some, List, [], ◌∷◌, arith,
}
use big_net_screen.Cast.Rate.{Window, RateControl, floor_kbps, congested, new, settle, observe, run}

-- The products of the retreat and the raise fit 32 bits, and the rate is between its bounds.
pub record IsValid (r : RateControl) : Type 0 where
  pub fits : r.ceiling_kbps * 11 < 2 ^ 32
  pub floor : floor_kbps ≤ r.current_kbps
  pub ceiling : r.current_kbps ≤ r.ceiling_kbps

pub new-IsValid : (ceiling_kbps : ℕ) → ceiling_kbps * 11 < 2 ^ 32 → IsValid (new ceiling_kbps)
unfolding new
new-IsValid ceiling_kbps h = ground arith

pub settle-IsValid : (bad : Bool) (r : RateControl) → IsValid r → IsValid (settle bad r)
unfolding settle
settle-IsValid true r v = ground arith
settle-IsValid false r v = ground arith

settle-moves :
    (bad : Bool) (r : RateControl)
    → IsValid r
    → (bad ≡ true → (settle bad r).current_kbps ≤ r.current_kbps)
      × (bad ≡ false → r.current_kbps ≤ (settle bad r).current_kbps)
unfolding settle
settle-moves bad r v = ground arith

-- One window: the rate moves down only if the window was congested and up only if it was not, and
-- the caller is told the new rate exactly when it is not the old one.
pub observe_direction :
    (window : Window) (r : RateControl)
    → IsValid r
    → let (told, r') = observe window r in
      (congested window ≡ true → r'.current_kbps ≤ r.current_kbps)
      × (congested window ≡ false → r.current_kbps ≤ r'.current_kbps)
      × (r'.current_kbps ≡ r.current_kbps → told ≡ none)
      × (r'.current_kbps ≢ r.current_kbps → told ≡ some r'.current_kbps)
unfolding observe
observe_direction window r v =
    let (down, up) = settle-moves (congested window) r v in
    (down, up, λ e. ground arith, λ ne. ground arith)

pub ceiling-settle : (bad : Bool) (r : RateControl) → (settle bad r).ceiling_kbps ≡ r.ceiling_kbps
unfolding settle
ceiling-settle bad r = ground arith

-- Over any windows, the rate stays between the floor and the ceiling, which does not move.
pub run_bounded :
    (windows : List Window) (r : RateControl)
    → IsValid r
    → IsValid (run windows r) × ((run windows r).ceiling_kbps ≡ r.ceiling_kbps)
unfolding run observe
run_bounded [] r v = ground arith
run_bounded (w ∷ ws) r v =
    let (valid, same) =
      run_bounded ws (settle (congested w) r) (settle-IsValid (congested w) r v) in
    (valid, omega (arith, same, ceiling-settle (congested w) r))
